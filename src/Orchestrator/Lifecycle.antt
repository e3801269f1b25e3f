-- ===== src/Orchestrator/Lifecycle.antt =====
-- A task from its submission (orchestrator/api.py) through its run (orchestrator/workflow.py) to the
-- poll of its status, beside everything else that uses the store.
pub mod Again
pub mod Submits
pub mod Completes
use routing.Prelude.{◌≡◌, refl, sym, ◌∙◌, ap, String, Option, none, some, List, [], ◌∷◌, ◌++◌}
use routing.Prelude.Float.{Float}
use routing.Prelude.Result.{ok}
use routing.Orchestrator.Store.Tables.{TaskRow}
use routing.Orchestrator.Store.Protocol.{Store}
use routing.Orchestrator.Store.Protocol.Laws.{IsStore}
use routing.Orchestrator.Workflow.World.{World, Runtime}
use routing.Orchestrator.Workflow.Run.{RunArgs, TaskResult, run}
use routing.Orchestrator.Workflow.Others.{Actions, AreOthers}
use routing.Orchestrator.Workflow.Others.Kept.{Actions-read}
use routing.Orchestrator.Workflow.Outcome.Ending.{IsCompleted, run_completes}
use routing.Orchestrator.Api.{ApiState, Submission, resolve_account, submit, get_status, status_for}
use routing.Orchestrator.Api.Claims.{IsAdmitted, submit_new}

last_injective : {A : Type 0} (xs : List A) (x y : A) → xs ++ (x ∷ []) ≡ xs ++ (y ∷ []) → x ≡ y
last_injective [] x y e = cc
last_injective (z ∷ xs) x y e = last_injective xs x y (cc)

module _ {F S : Type 0} ⦃f : Float F⦄ where
  status_of_row :
      (ops : Store F S) (id a : String) (who : Option String) (s : ApiState F S) (r : TaskRow F)
      → resolve_account who ≡ ok a
      → ops.get_task id a s.store ≡ some r
      → get_status ops id who s ≡ ok r
  unfolding get_status
  status_of_row ops id a who s r h found = rw (h, found, status_for) refl

  -- If a submission with a new key was let through and Temporal took the workflow, and the workflow
  -- that it started returns, whatever became of its attempts, then the account's poll of the task
  -- answers a row that is COMPLETED with the decision of the run. Other workflows and submissions may
  -- act in any way, on their own tasks, between the submission and the run, between the attempts of
  -- the run, and between the run and the poll.
  pub submit-run :
      (rt : Runtime F S) (laws : IsStore F S rt.ops) (q : Submission F) (a key : String)
      (s : ApiState F S) (args : RunArgs) (w0 w w' w'' : World F S) (res : TaskResult F)
      → IsAdmitted q a s
      → q.idempotency_key ≡ some key
      → rt.ops.get_idempotency key s.store ≡ none
      → q.client_error ≡ none
      → (submit rt.ops q s).1.started ≡ s.started ++ (args ∷ [])
      → w0.store ≡ (submit rt.ops q s).1.store
      → Actions rt args.wf_id w0 w
      → AreOthers rt args.wf_id
      → run rt args w ≡ (ok res, w')
      → Actions rt args.wf_id w' w''
      → (r : TaskRow F) × (get_status rt.ops q.new_task_id q.account_id
            (record s { store = w''.store })
          ≡ ok r)
        × IsCompleted res.decision r
  submit-run rt laws q a key s args w0 w w' w'' res h k c e started store before calm ran later =
      let ops = rt.ops in
      let (answer, own, claimed, (x, begun, wf, acct, task)) = submit_new laws q a key s h k c e in
      let same : args ≡ x = last_injective s.started args x (sym started ∙ begun) in
      let id_eq : args.wf_id ≡ q.new_task_id = ap (λ y. y.wf_id) same ∙ wf in
      let acct_eq : args.account_id ≡ a = ap (λ y. y.account_id) same ∙ acct in
      let (r0, there, mine) =
        laws.own-get q.new_task_id a w0.store (ap (ops.task_owner q.new_task_id) store ∙ own) in
      let first : ops.get_task args.wf_id args.account_id w0.store ≡ some r0 =
        (λ i. ops.get_task (id_eq i) (acct_eq i) w0.store) ∙ there in
      let (r, found, good) =
        run_completes rt laws args calm w w' res
          (r0, Actions-read rt laws args.wf_id args.account_id before ∙ first) ran in
      (
        r,
        status_of_row ops q.new_task_id a q.account_id (record s { store = w''.store }) r h.account
            ((λ i. ops.get_task (sym id_eq i) (sym acct_eq i) w''.store)
              ∙ Actions-read rt laws args.wf_id args.account_id later
              ∙ found),
        good,
      )
