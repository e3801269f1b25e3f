-- ===== src/Orchestrator/Workflow/Outcome/Ending.antt =====
-- The end of `TaskWorkflow.run` of orchestrator/workflow.py when it returns: COMPLETED.
use mathlib.Core.Path.{subst}
use routing.Prelude.{◌≡◌, refl, sym, ◌∙◌, ap, String, Option, none, some}
use routing.Prelude.Float.{Float}
use routing.Prelude.Result.{Result, ok, err, ok_injective}
use routing.Matrix.Model.{PyError, RoutingDecision, tier_name}
use routing.Orchestrator.Store.Tables.{Status, completed, TaskRow, with_status}
use routing.Orchestrator.Store.Protocol.Laws.{IsStore}
use routing.Orchestrator.Workflow.Exec.{Exc, Exec, raise, ◌>>=◌}
use routing.Orchestrator.Workflow.World.{World, Runtime, activity}
use routing.Orchestrator.Workflow.Activities.{mark_status}
use routing.Orchestrator.Workflow.Run.{
  RunArgs, TaskResult, finish_steps, steps, dead_letter, catch, run,
}
use routing.Orchestrator.Workflow.Attempts.{
  Keeps, Keeps-to, Keeps-pure, Keeps-bind, >>=-ok, activity-ok,
}
use routing.Orchestrator.Workflow.Rows.{
  read, HasRow, mark_status-row, mark_status-HasRow, check_rate_limit-row, reserve_usage-row,
  effective-row, route_task-row, settle_usage-row, record-row, dispatch_task-row,
}
use routing.Orchestrator.Workflow.Others.{AreOthers}
use routing.Orchestrator.Workflow.Outcome.{counted-HasRow, plain, marks}

-- The row of a task that was completed with a decision.
pub record IsCompleted {F : Type 0} (d : RoutingDecision F) (r : TaskRow F) : Type 0 where
  pub status_eq : r.status ≡ completed
  pub error_eq : r.error ≡ none
  pub tier_eq : r.tier ≡ some (tier_name d.tier)
  pub pointer_eq : r.model_pointer ≡ some d.model_pointer
  pub cost_eq : r.estimated_cost ≡ some d.estimated_cost

raise≢ok : {W A : Type 0} (e : Exc) (w w' : W) (x : A) → ¬ (raise e w ≡ (ok x, w'))
raise≢ok e w w' x h = absurd (cc)

module _ {F S : Type 0} ⦃f : Float F⦄ (rt : Runtime F S) (args : RunArgs) where
  -- The dead letter ends in a raise.
  never_returns :
      (e : Exc) (w w' : World F S) (res : TaskResult F) → ¬ (dead_letter rt args e w ≡ (ok res, w'))
  unfolding dead_letter
  never_returns e w w' res h =
      let (u, t, marked, e1) = >>=-ok _ _ w w' res h in absurd (raise≢ok _ t w' res e1)

  pub catch_cases :
      (q : Result Exc (TaskResult F) × World F S) (w' : World F S) (res : TaskResult F)
      → catch rt args q ≡ (ok res, w')
      → q ≡ (ok res, w')
  unfolding catch
  catch_cases (ok r, w) w' res h = h
  catch_cases (err e, w) w' res h = absurd (never_returns e w w' res h)

module _ {F S : Type 0} ⦃f : Float F⦄ (rt : Runtime F S) (laws : IsStore F S rt.ops)
    (args : RunArgs) (calm : AreOthers rt args.wf_id) where
  open args use {wf_id, account_id}

  abbrev pub Row : World F S → Type 0
  Row = HasRow rt laws wf_id account_id

  finish_steps-Keeps : (d : RoutingDecision F) → Keeps Row (finish_steps rt args d)
  unfolding finish_steps
  finish_steps-Keeps d =
      Keeps-bind _ _
        (plain rt laws wf_id account_id calm _
          (dispatch_task-row rt laws wf_id account_id _ _ _ _ d _ _))
        λ out. Keeps-bind _ _ (marks rt laws wf_id account_id calm _ _ _ _ _ _) λ u. Keeps-pure _

  pub steps-Keeps : Keeps Row (steps rt args)
  unfolding steps
  steps-Keeps = Keeps-bind _ _ (marks rt laws wf_id account_id calm _ _ _ _ _ _) λ u.
      Keeps-bind _ _
        (plain rt laws wf_id account_id calm _ (check_rate_limit-row rt laws wf_id account_id _))
        λ l.
          Keeps-bind _ _
            (plain rt laws wf_id account_id calm _
              (reserve_usage-row rt laws wf_id account_id _ _ _))
            λ r.
              Keeps-bind _ _
                (plain rt laws wf_id account_id calm _ (effective-row rt laws wf_id account_id _ _))
                λ b.
                  Keeps-bind _ _
                    (plain rt laws wf_id account_id calm _
                      (route_task-row rt laws wf_id account_id _ _ _))
                    λ d.
                      Keeps-bind _ _
                        (plain rt laws wf_id account_id calm _
                          (settle_usage-row rt laws wf_id account_id _ _ _ _))
                        λ x.
                          Keeps-bind _ _
                            (plain rt laws wf_id account_id calm _
                              (record-row rt laws wf_id account_id _))
                            λ o. finish_steps-Keeps d

  -- A status write that returned, in the row.
  pub marked :
      (c : String) (st : Status) (e t p : Option String) (x : Option F) (w w' : World F S)
      (v : Unit {0})
      → Row w
      → activity rt (mark_status rt c wf_id st e t p x) w ≡ (ok v, w')
      → (now : F) × (old : TaskRow F) × (read rt laws wf_id account_id w'
          ≡ some (with_status st e t p x now old))
  marked c st e t p x w w' v h ran =
      let (a, w0, (old, there), last) =
        activity-ok rt Row (mark_status rt c wf_id st e t p x)
          (counted-HasRow rt laws wf_id account_id calm)
          (λ a w k. mark_status-HasRow rt laws wf_id account_id c st e t p x a w k) w w' v h ran in
      (
        a.now,
        old,
        ap (λ (q : Result PyError (Unit {0}) × World F S). read rt laws wf_id account_id q.1)
              (sym last)
            ∙ mark_status-row rt laws wf_id account_id c st e t p x a w0 old there,
      )

  finish_steps-Row :
      (d : RoutingDecision F) (w w' : World F S) (res : TaskResult F)
      → Row w
      → finish_steps rt args d w ≡ (ok res, w')
      → (r : TaskRow F) × (read rt laws wf_id account_id w' ≡ some r)
        × IsCompleted d r
        × (res.decision ≡ d)
  unfolding finish_steps
  finish_steps-Row d w w' res h e =
      let (out, t, dispatched, e1) = >>=-ok _ _ w w' res e in
      let kept : Row t =
        Keeps-to _ w t _
          (plain rt laws wf_id account_id calm _
            (dispatch_task-row rt laws wf_id account_id _ _ _ _ d _ _))
          dispatched h in
      let (u, t2, done, e2) = >>=-ok _ _ t w' res e1 in
      let (now, old, there) = marked _ completed _ _ _ _ t t2 u kept done in
      let last : t2 ≡ w' = ap (λ q. q.1) e2 in
      (
        with_status completed none (some (tier_name d.tier)) (some d.model_pointer)
            (some d.estimated_cost) now old,
        ap (read rt laws wf_id account_id) (sym last) ∙ there,
        record {
          status_eq = refl;
          error_eq = refl;
          tier_eq = refl;
          pointer_eq = refl;
          cost_eq = refl;
        },
        ap TaskResult.decision (ok_injective (ok res) res _ refl (sym (ap (λ q. q.0) e2))),
      )

  -- A part of the workflow that returns a decision only with the row completed.
  record Completes (m : Exec (World F S) (TaskResult F)) : Type 0 where
    pub at :
        (w w' : World F S) (res : TaskResult F)
        → Row w
        → m w ≡ (ok res, w')
        → (r : TaskRow F) × (read rt laws wf_id account_id w' ≡ some r) × IsCompleted res.decision r

  Completes-bind :
      {A : Type 0} (m : Exec (World F S) A) (g : A → Exec (World F S) (TaskResult F))
      → Keeps Row m
      → ((a : A) → Completes (g a))
      → Completes (m >>= g)
  Completes-bind m g km kg = record {
    at = λ w w' res h e.
        let (a, t, e1, e2) = >>=-ok m g w w' res e in
        (kg a).at t w' res (Keeps-to m w t (ok a) km e1 h) e2;
  }

  finish_steps-Completes : (d : RoutingDecision F) → Completes (finish_steps rt args d)
  finish_steps-Completes d = record {
    at = λ w w' res h e.
        let (r, there, good, same) = finish_steps-Row d w w' res h e in
        (r, there, subst (λ c. IsCompleted c r) (sym same) good);
  }

  steps-Completes : Completes (steps rt args)
  unfolding steps
  steps-Completes = Completes-bind _ _ (marks rt laws wf_id account_id calm _ _ _ _ _ _) λ u.
      Completes-bind _ _
        (plain rt laws wf_id account_id calm _ (check_rate_limit-row rt laws wf_id account_id _))
        λ l.
          Completes-bind _ _
            (plain rt laws wf_id account_id calm _
              (reserve_usage-row rt laws wf_id account_id _ _ _))
            λ r.
              Completes-bind _ _
                (plain rt laws wf_id account_id calm _ (effective-row rt laws wf_id account_id _ _))
                λ b.
                  Completes-bind _ _
                    (plain rt laws wf_id account_id calm _
                      (route_task-row rt laws wf_id account_id _ _ _))
                    λ d.
                      Completes-bind _ _
                        (plain rt laws wf_id account_id calm _
                          (settle_usage-row rt laws wf_id account_id _ _ _ _))
                        λ x.
                          Completes-bind _ _
                            (plain rt laws wf_id account_id calm _
                              (record-row rt laws wf_id account_id _))
                            λ o. finish_steps-Completes d

  -- When a run returns, whatever became of its attempts and whatever other workflows and submissions
  -- did on their own tasks between them, and the account could read a row of the task at its start,
  -- then the account reads a row that is COMPLETED, without an error, with the tier, the pointer and
  -- the cost of the decision that is returned.
  pub run_completes :
      (w w' : World F S) (res : TaskResult F)
      → Row w
      → run rt args w ≡ (ok res, w')
      → (r : TaskRow F) × (read rt laws wf_id account_id w' ≡ some r) × IsCompleted res.decision r
  unfolding run
  run_completes w w' res h e =
      steps-Completes.at w w' res h (catch_cases rt args (steps rt args w) w' res e)
