-- ===== src/Orchestrator/Workflow/Yields/Tripped.antt =====
-- The workflow of orchestrator/workflow.py while the breaker is tripped.
use mathlib.Core.Path.{subst}
use routing.Prelude.{◌≡◌, ◌≢◌, refl, ◌∙◌, ap, String, Bool, true, Option, arith}
use routing.Prelude.Float.{Float}
use routing.Prelude.Result.{Result, ok, err, ok_injective}
use routing.Matrix.Model.{frontier, PyError, Task, RoutingDecision, default_cost_model}
use routing.Matrix.Route.{route}
use routing.Matrix.Route.Table.{route-degraded}
use routing.Orchestrator.Breaker.{CircuitBreaker, effective_degraded}
use routing.Orchestrator.Store.Tables.{Status}
use routing.Orchestrator.Workflow.Others.{AreOthers}
use routing.Orchestrator.Workflow.Others.Tripped.{
  IsTripped, IsTripped-eq, check_rate_limit-plain, dispatch_task-plain, record-trips,
  effective-tripped, route_task-plain, Actions-IsTripped,
}
use routing.Orchestrator.Workflow.World.{counted, Attempt, World, Runtime, Body, activity}
use routing.Orchestrator.Workflow.Activities.{
  log_info, reserve_usage, circuit_breaker_effective, routed, route_task, settle_usage,
  circuit_breaker_record, mark_status,
}
use routing.Orchestrator.Workflow.Run.{RunArgs, TaskResult, finish_steps, steps, run}
use routing.Orchestrator.Workflow.Outcome.Ending.{catch_cases}
use routing.Orchestrator.Workflow.Yields.{Yields, Yields-bind, Yields-pure, activity-Yields}

module _ {F S : Type 0} ⦃f : Float F⦄ (rt : Runtime F S) (id : String)
    (calm : AreOthers rt id) where
  counted-IsTripped : (w : World F S) → IsTripped w → IsTripped (counted rt w)
  counted-IsTripped w h = Actions-IsTripped rt id (calm.at w.tick w) h

  -- An activity that does not touch the breaker.
  plain :
      {A : Type 0} (body : Body F S A)
      → ((a : Attempt F) (w : World F S) → (body a w).1.circuit_breaker ≡ w.circuit_breaker)
      → Yields IsTripped (λ (v : A). Unit {0}) (activity rt body)
  plain body same =
      activity-Yields rt IsTripped (λ v. Unit) body counted-IsTripped
        (λ a w h. IsTripped-eq w (body a w).1 (same a w) h) (λ a w w' v h e. tt)

  degraded_of_tripped :
      (b : CircuitBreaker F) (per : Bool) → b.tripped ≡ true → effective_degraded b per ≡ true
  unfolding effective_degraded
  degraded_of_tripped b per t = ground arith

  effective-Yields :
      (c : String) (per : Bool)
      → Yields IsTripped (λ v. v ≡ true) (activity rt (circuit_breaker_effective rt c per))
  effective-Yields c per =
      activity-Yields rt IsTripped (λ v. v ≡ true) (circuit_breaker_effective rt c per)
        counted-IsTripped
        (λ a w h.
          IsTripped-eq w (circuit_breaker_effective rt c per a w).1
            (effective-tripped rt c per a w h.0 h.1).1 h)
        (λ a w w' v h e.
          ok_injective (circuit_breaker_effective rt c per a w).0 v (effective_degraded h.0 per)
            (ap (λ q. q.0) e) (effective-tripped rt c per a w h.0 h.1).0
          ∙ degraded_of_tripped h.0 per h.2)

  routed-ok :
      (c : String) (r : Result PyError (RoutingDecision F)) (w w' : World F S)
      (d : RoutingDecision F)
      → routed rt c r w ≡ (ok d, w')
      → r ≡ ok d
  routed-ok c (ok x) w w' d e = ap (λ q. q.0) e
  routed-ok c (err x) w w' d e = absurd (cc)

  -- A degraded routing yields a tier below frontier.
  abbrev IsBelow : RoutingDecision F → Type 0
  IsBelow d = d.tier ≢ frontier

  route_task-IsBelow :
      (c : String) (t : Task) (a : Attempt F) (w w' : World F S) (d : RoutingDecision F)
      → route_task rt c t true a w ≡ (ok d, w')
      → IsBelow d
  unfolding route_task
  route_task-IsBelow c t a w w' d e =
      let (r, log) = route rt.env default_cost_model t true w.route_log in
      (route-degraded rt.env default_cost_model t w.route_log d
        (routed-ok c r (record w { route_log = log }) w' d e)).0

  route_task-Yields :
      (c : String) (t : Task) (b : Bool)
      → b ≡ true
      → Yields IsTripped IsBelow (activity rt (route_task rt c t b))
  route_task-Yields c t b h =
      activity-Yields rt IsTripped IsBelow (route_task rt c t b) counted-IsTripped
        (λ a w k. IsTripped-eq w (route_task rt c t b a w).1 (route_task-plain rt c t b a w) k)
        (λ a w w' d k e.
          route_task-IsBelow c t a w w' d (subst (λ x. route_task rt c t x a w ≡ (ok d, w')) h e))

  mark_status-Yields :
      (c id : String) (st : Status) (e t p : Option String) (x : Option F)
      → Yields IsTripped (λ (v : Unit {0}). Unit {0}) (activity rt (mark_status rt c id st e t p x))
  unfolding mark_status log_info
  mark_status-Yields c id st e t p x = plain (mark_status rt c id st e t p x) (λ a w. refl)

  reserve_usage-Yields :
      (c who : String) (x : F)
      → Yields IsTripped (λ v. Unit {0}) (activity rt (reserve_usage rt c who x))
  unfolding reserve_usage log_info
  reserve_usage-Yields c who x = plain (reserve_usage rt c who x) (λ a w. refl)

  settle_usage-Yields :
      (c who : String) (x y : F)
      → Yields IsTripped (λ v. Unit {0}) (activity rt (settle_usage rt c who x y))
  unfolding settle_usage log_info
  settle_usage-Yields c who x y = plain (settle_usage rt c who x y) (λ a w. refl)

  module _ (args : RunArgs) where
    finish_steps-Yields :
        (d : RoutingDecision F)
        → IsBelow d
        → Yields IsTripped (λ res. IsBelow res.decision) (finish_steps rt args d)
    unfolding finish_steps
    finish_steps-Yields d below =
        Yields-bind _ _ (plain _ (dispatch_task-plain rt _ _ _ _ d _ _))
          λ out u. Yields-bind _ _ (mark_status-Yields _ _ _ _ _ _ _) λ v u'. Yields-pure _ below

    steps-Yields : Yields IsTripped (λ res. IsBelow res.decision) (steps rt args)
    unfolding steps
    steps-Yields = Yields-bind _ _ (mark_status-Yields _ _ _ _ _ _ _) λ v u.
        Yields-bind _ _ (plain _ (check_rate_limit-plain rt _)) λ l u.
          Yields-bind _ _ (reserve_usage-Yields _ _ _) λ r u.
            Yields-bind _ _ (effective-Yields _ _) λ b true_eq.
              Yields-bind _ _ (route_task-Yields _ _ b true_eq) λ d below.
                Yields-bind _ _ (settle_usage-Yields _ _ _ _) λ x u.
                  Yields-bind _ _
                    (activity-Yields rt IsTripped (λ v. Unit {0}) (circuit_breaker_record rt _)
                      counted-IsTripped (λ a w h. record-trips rt _ a w h) (λ a w w' v h e. tt))
                    λ o u. finish_steps-Yields d below

    -- While the breaker is tripped, a run that returns has routed below frontier, whatever the
    -- task asks for, whatever the account's balance is, whatever became of its attempts, and
    -- whatever other workflows and submissions did between them.
    pub run_tripped :
        (w w' : World F S) (res : TaskResult F)
        → IsTripped w
        → run rt args w ≡ (ok res, w')
        → res.decision.tier ≢ frontier
    unfolding run
    run_tripped w w' res h e =
        (steps-Yields.at w w' res h (catch_cases rt args (steps rt args w) w' res e)).1
