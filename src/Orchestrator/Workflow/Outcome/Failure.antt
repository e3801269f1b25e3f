-- ===== src/Orchestrator/Workflow/Outcome/Failure.antt =====
-- The end of `TaskWorkflow.run` of orchestrator/workflow.py when it raises: FAILED.
use Prim.Native.String.{◌++◌ as append}
use routing.Prelude.{◌≡◌, refl, sym, ◌∙◌, ap, ◌⊎◌, inl, inr, String, none, some}
use routing.Prelude.Float.{Float}
use routing.Prelude.Result.{Result, ok, err, err_injective}
use routing.Orchestrator.Store.Tables.{failed, TaskRow, with_status}
use routing.Orchestrator.Store.Protocol.Laws.{IsStore}
use routing.Orchestrator.Workflow.Exec.{Exc, caused}
use routing.Orchestrator.Workflow.World.{World, Runtime, activity}
use routing.Orchestrator.Workflow.Activities.{mark_status}
use routing.Orchestrator.Workflow.Run.{RunArgs, TaskResult, steps, reason, dead_letter, catch, run}
use routing.Orchestrator.Workflow.Attempts.{>>=-err}
use routing.Orchestrator.Workflow.Rows.{read}
use routing.Orchestrator.Workflow.Others.{AreOthers}
use routing.Orchestrator.Workflow.Rows.{read}
use routing.Orchestrator.Workflow.Others.{AreOthers}
use routing.Orchestrator.Workflow.Outcome.Ending.{Row, steps-Keeps, marked}

-- The row of a task that failed for a reason: it has no tier and no pointer.
pub record IsFailed {F : Type 0} (why : String) (r : TaskRow F) : Type 0 where
  pub status_eq : r.status ≡ failed
  pub error_eq : r.error ≡ some why
  pub tier_eq : r.tier ≡ none
  pub pointer_eq : r.model_pointer ≡ none

module _ {F S : Type 0} ⦃f : Float F⦄ (rt : Runtime F S) (laws : IsStore F S rt.ops)
    (args : RunArgs) (calm : AreOthers rt args.wf_id) where
  open args use {wf_id, account_id}

  -- What a run that raised leaves: the failed row under the handler's own exception, or a status
  -- write of which no attempt returned.
  abbrev pub DeadLettered : Exc → Exc → World F S → World F S → Type 0
  DeadLettered exc e t w' =
      ((e
          ≡ caused "ApplicationError"
              (append "Task " (append wf_id (append " failed: " (reason rt args exc)))) exc)
        × (r : TaskRow F) × (read rt laws wf_id account_id w' ≡ some r)
        × IsFailed (reason rt args exc) r)
      ⊎ (activity rt
            (mark_status rt args.correlation_id wf_id failed (some (reason rt args exc)) none none
              none)
            t
          ≡ (err e, w'))

  dead_letter_lem :
      (exc e : Exc) (t w' : World F S)
      → Row rt laws args calm t
      → dead_letter rt args exc t ≡ (err e, w')
      → DeadLettered exc e t w'
  unfolding dead_letter
  dead_letter_lem exc e t w' h k = elim (>>=-err _ _ t w' e k) [
    | inl lost ↦ inr lost
    | inr (u, t2, done, last) ↦
        let (now, old, there) = marked rt laws args calm _ failed _ _ _ _ t t2 u h done in
        inl (
          err_injective {A = TaskResult F} (err e) e _ refl (sym (ap (λ q. q.0) last)),
          with_status failed (some (reason rt args exc)) none none none now old,
          ap (read rt laws wf_id account_id) (sym (ap (λ q. q.1) last)) ∙ there,
          record { status_eq = refl; error_eq = refl; tier_eq = refl; pointer_eq = refl },
        )
  ]

  catch_fails :
      (q : Result Exc (TaskResult F) × World F S) (w' : World F S) (e : Exc)
      → Row rt laws args calm q.1
      → catch rt args q ≡ (err e, w')
      → (exc : Exc) × (t : World F S) × (q ≡ (err exc, t)) × DeadLettered exc e t w'
  unfolding catch
  catch_fails (ok r, w) w' e h k = absurd (cc)
  catch_fails (err exc, t) w' e h k = (exc, t, refl, dead_letter_lem exc e t w' h k)

  -- When a run raises, whatever became of its attempts and whatever other workflows and submissions
  -- did on their own tasks between them, and the account could read a row of the task at its start,
  -- then the body raised some exception, and either the run raises an
  -- `ApplicationError` that has it as its cause and the account reads a row that is FAILED with the
  -- chain of causes as its error and no tier and pointer, or all attempts to write that status were
  -- without a result, and the run raises what they raised.
  pub run_fails :
      (w w' : World F S) (e : Exc)
      → Row rt laws args calm w
      → run rt args w ≡ (err e, w')
      → (exc : Exc) × (t : World F S) × (steps rt args w ≡ (err exc, t)) × DeadLettered exc e t w'
  unfolding run
  run_fails w w' e h k =
      catch_fails (steps rt args w) w' e ((steps-Keeps rt laws args calm).at w h) k
