-- ===== src/Orchestrator/Lifecycle/Completes.antt =====
-- A task of orchestrator/api.py and orchestrator/workflow.py comes to its end, where the retries are
-- enough for what becomes of its attempts.
use routing.Prelude.{◌≡◌, sym, ◌∙◌, ap, String, false, none, some, [], ◌∷◌, ◌++◌}
use routing.Prelude.Float.{Float}
use routing.Prelude.Result.{ok}
use routing.Orchestrator.Store.Tables.{TaskRow}
use routing.Orchestrator.Store.Protocol.Laws.{IsStore}
use routing.Orchestrator.Workflow.World.{World, Runtime}
use routing.Orchestrator.Workflow.Activities.{is_dispatch}
use routing.Orchestrator.Workflow.Run.{RunArgs, TaskResult, run}
use routing.Orchestrator.Workflow.Others.{Actions, nothing, AreOthers}
use routing.Orchestrator.Workflow.Others.Kept.{Actions-read}
use routing.Orchestrator.Workflow.Outcome.Ending.{IsCompleted}
use routing.Orchestrator.Workflow.Returns.{IsPatient}
use routing.Orchestrator.Workflow.Returns.Live.{IsConfigured, Ready, run_returns}
use routing.Orchestrator.Lifecycle.{last_injective, submit-run}
use routing.Orchestrator.Api.{ApiState, Submission, submit, get_status}
use routing.Orchestrator.Api.Claims.{IsAdmitted, submit_new}

module _ {F S : Type 0} ⦃f : Float F⦄ (rt : Runtime F S) (laws : IsStore F S rt.ops) where
  -- If a submission with a new key was let through and Temporal took the workflow, the three
  -- pointers are configured, the provider is registered with a factory and an adapter that do not
  -- raise, no failure is simulated, and from then on a worker takes every attempt in time and
  -- among any three in a row one runs, then the workflow returns, and the account's poll answers
  -- a row that is COMPLETED with its decision, whatever other workflows and submissions do on
  -- their own tasks before and during the run.
  pub submit-completes :
      (q : Submission F) (a key : String) (s : ApiState F S) (args : RunArgs) (w0 w : World F S)
      (calm : AreOthers rt args.wf_id) (patient : IsPatient rt) (set : IsConfigured rt)
      (goes : is_dispatch args.simulate_failure ≡ false)
      → IsAdmitted q a s
      → q.idempotency_key ≡ some key
      → rt.ops.get_idempotency key s.store ≡ none
      → q.client_error ≡ none
      → (submit rt.ops q s).1.started ≡ s.started ++ (args ∷ [])
      → w0.store ≡ (submit rt.ops q s).1.store
      → Actions rt args.wf_id w0 w
      → Ready rt args calm patient set goes w
      → (res : TaskResult F) × (w' : World F S) × (run rt args w ≡ (ok res, w'))
        × ((r : TaskRow F) × (get_status rt.ops q.new_task_id q.account_id
                (record s { store = w'.store })
              ≡ ok r)
            × IsCompleted res.decision r)
  submit-completes q a key s args w0 w calm patient set goes h k c e started store before ready =
      let (answer, own, claimed, (x, begun, wf, acct, task)) = submit_new laws q a key s h k c e in
      let same : args ≡ x = last_injective s.started args x (sym started ∙ begun) in
      let id_eq : args.wf_id ≡ q.new_task_id = ap (λ y. y.wf_id) same ∙ wf in
      let acct_eq : args.account_id ≡ a = ap (λ y. y.account_id) same ∙ acct in
      let (r0, there, mine) =
        laws.own-get q.new_task_id a w0.store (ap (rt.ops.task_owner q.new_task_id) store ∙ own) in
      let first : rt.ops.get_task args.wf_id args.account_id w0.store ≡ some r0 =
        (λ i. rt.ops.get_task (id_eq i) (acct_eq i) w0.store) ∙ there in
      let (res, w', ran, row) =
        run_returns rt args calm patient set goes laws w ready
          (r0, Actions-read rt laws args.wf_id args.account_id before ∙ first) in
      (
        res,
        w',
        ran,
        submit-run rt laws q a key s args w0 w w' w' res h k c e started store before calm ran
            nothing,
      )
