-- ===== src/Orchestrator/Workflow/Others/Runs.antt =====
-- What a whole run of another workflow of orchestrator/workflow.py does to the shared state is a
-- sequence of actions: so runs may be interleaved with each other.
use routing.Prelude.{◌≢◌, ◌+◌, String, Option}
use routing.Prelude.Float.{Float}
use routing.Prelude.Result.{Result, ok, err}
use routing.Matrix.Model.{RoutingDecision}
use routing.Orchestrator.Store.Tables.{Status}
use routing.Orchestrator.Workflow.Exec.{Exc}
use routing.Orchestrator.Workflow.World.{Attempt, World, Runtime, Body, counted, activity}
use routing.Orchestrator.Workflow.Activities.{mark_status}
use routing.Orchestrator.Workflow.Run.{
  RunArgs, TaskResult, finish_steps, steps, dead_letter, catch, run,
}
use routing.Orchestrator.Workflow.Attempts.{
  Keeps, Keeps-pure, Keeps-raise, Keeps-bind, activity-Keeps,
}
use routing.Orchestrator.Workflow.Others.{
  Action, checks, reserves, consults, routes, settles, records, dispatches, marks, counts, Actions,
  nothing, then_one, AreOthers,
}

module _ {F S : Type 0} ⦃f : Float F⦄ (rt : Runtime F S) (id : String) where
  pub after_both : {w v u : World F S} → Actions rt id w v → Actions rt id v u → Actions rt id w u
  after_both before nothing = before
  after_both before (then_one more last) = then_one (after_both before more) last

  module _ (calm : AreOthers rt id) (from : World F S) where
    abbrev Reached : World F S → Type 0
    Reached w = Actions rt id from w

    counted-Reached : (w : World F S) → Reached w → Reached (counted rt w)
    counted-Reached w h =
        let n = w.tick in then_one (after_both h (calm.at n w)) (counts (n + 1) (rt.others n w))

    acts :
        {A : Type 0} (body : Body F S A)
        → ((a : Attempt F) (w : World F S) → Action rt id w (body a w).1)
        → Keeps Reached (activity rt body)
    acts body one = activity-Keeps rt Reached body counted-Reached λ a w h. then_one h (one a w)

    module _ (args : RunArgs) (other : args.wf_id ≢ id) where
      open args use {wf_id, task, account_id, correlation_id, provider_name, simulate_failure}

      marks_own :
          (st : Status) (e t p : Option String) (x : Option F)
          → Keeps Reached (activity rt (mark_status rt correlation_id wf_id st e t p x))
      marks_own st e t p x = acts _ λ a w. marks correlation_id wf_id st e t p x a w other

      finish_steps-Keeps : (d : RoutingDecision F) → Keeps Reached (finish_steps rt args d)
      unfolding finish_steps
      finish_steps-Keeps d =
          Keeps-bind _ _
            (acts _ λ a w.
              dispatches correlation_id wf_id account_id provider_name d task simulate_failure a w)
            λ out. Keeps-bind _ _ (marks_own _ _ _ _ _) λ u. Keeps-pure _

      steps-Keeps : Keeps Reached (steps rt args)
      unfolding steps
      steps-Keeps = Keeps-bind _ _ (marks_own _ _ _ _ _) λ u.
          Keeps-bind _ _ (acts _ λ a w. checks account_id a w) λ l.
            Keeps-bind _ _ (acts _ λ a w. reserves correlation_id account_id _ a w) λ r.
              Keeps-bind _ _ (acts _ λ a w. consults correlation_id r.degraded a w) λ b.
                Keeps-bind _ _ (acts _ λ a w. routes correlation_id task b a w) λ d.
                  Keeps-bind _ _ (acts _ λ a w. settles correlation_id account_id _ _ a w) λ x.
                    Keeps-bind _ _ (acts _ λ a w. records d.estimated_cost a w)
                      λ o. finish_steps-Keeps d

      dead_letter-Keeps : (e : Exc) → Keeps Reached (dead_letter rt args e)
      unfolding dead_letter
      dead_letter-Keeps e = Keeps-bind _ _ (marks_own _ _ _ _ _) λ u. Keeps-raise _

      catch-Reached :
          (q : Result Exc (TaskResult F) × World F S) → Reached q.1 → Reached (catch rt args q).1
      unfolding catch
      catch-Reached (ok r, w) h = h
      catch-Reached (err e, w) h = (dead_letter-Keeps e).at w h

      -- A run of the workflow of another task, whatever becomes of its attempts and however it ends,
      -- together with what others do between its attempts, is a sequence of single actions, none of
      -- which is of the workflow of this task.
      pub run-Actions : Actions rt id from (run rt args from).1
      unfolding run
      run-Actions = catch-Reached (steps rt args from) (steps-Keeps.at from nothing)
