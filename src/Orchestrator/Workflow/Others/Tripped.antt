-- ===== src/Orchestrator/Workflow/Others/Tripped.antt =====
-- The breaker of orchestrator/workflow.py stays tripped through the activities and through what others
-- do: nothing in the orchestrator resets it.
use routing.Prelude.{◌≡◌, refl, ◌∙◌, String, Bool, true, Option, some, arith, inl, inr, Bool-cases}
use routing.Prelude.Float.{Float}
use routing.Prelude.Result.{Result, ok, err}
use routing.Matrix.Model.{PyError, Task, RoutingDecision, default_cost_model}
use routing.Matrix.Route.{route}
use routing.Matrix.Providers.{Dispatched, parse_provider, dispatch}
use routing.Orchestrator.Breaker.{CircuitBreaker, effective_degraded, record_cost}
use routing.Orchestrator.Workflow.World.{Attempt, World, Runtime}
use routing.Orchestrator.Workflow.Activities.{
  is_dispatch, log_info, check_rate_limit, reserve_usage, circuit_breaker_effective, routed,
  route_task, settle_usage, circuit_breaker_record, hand_off, dispatch_task, mark_status,
}
use routing.Orchestrator.Workflow.Activities.{log_event}
use routing.Orchestrator.Workflow.Others.{
  Action, checks, reserves, consults, routes, settles, records, dispatches, marks, logs, registers,
  creates, counts, Actions, nothing, then_one,
}

module _ {F S : Type 0} where
  -- There is a breaker, and it is tripped.
  abbrev pub IsTripped : World F S → Type 0
  IsTripped w = (b : CircuitBreaker F) × (w.circuit_breaker ≡ some b) × (b.tripped ≡ true)

  pub IsTripped-eq :
      (w w' : World F S) → w'.circuit_breaker ≡ w.circuit_breaker → IsTripped w → IsTripped w'
  IsTripped-eq w w' e (b, h, t) = (b, e ∙ h, t)

module _ {F S : Type 0} ⦃f : Float F⦄ (rt : Runtime F S) where
  pub check_rate_limit-plain :
      (who : String) (a : Attempt F) (w : World F S)
      → (check_rate_limit rt who a w).1.circuit_breaker ≡ w.circuit_breaker
  unfolding check_rate_limit
  check_rate_limit-plain who a w = ground arith

  routed-plain :
      (c : String) (r : Result PyError (RoutingDecision F)) (w : World F S)
      → (routed rt c r w).1.circuit_breaker ≡ w.circuit_breaker
  unfolding log_info
  routed-plain c (ok d) w = refl
  routed-plain c (err e) w = refl

  hand_off-plain :
      (c task_id who : String) (d : RoutingDecision F) (t : Task) (p : String)
      (r : Result PyError Dispatched) (w : World F S)
      → (hand_off rt c task_id who d t p r w).1.circuit_breaker ≡ w.circuit_breaker
  unfolding log_info
  hand_off-plain c task_id who d t p (ok x) w = refl
  hand_off-plain c task_id who d t p (err e) w = refl

  pub dispatch_task-plain :
      (c task_id who : String) (name : Option String) (d : RoutingDecision F) (t : Task)
      (sim : Option String) (a : Attempt F) (w : World F S)
      → (dispatch_task rt c task_id who name d t sim a w).1.circuit_breaker ≡ w.circuit_breaker
  unfolding dispatch_task
  dispatch_task-plain c task_id who name d t sim a w =
      let p = parse_provider rt.env name in
      let (x, registry) = dispatch p d.model_pointer w.registry in
      elim (Bool-cases (is_dispatch sim)) [
        | inl fails ↦ rw fails refl
        | inr goes ↦
            rw goes (hand_off-plain c task_id who d t p x (record w { registry = registry }))
      ]

  pub record-trips :
      (x : F) (a : Attempt F) (w : World F S)
      → IsTripped w
      → IsTripped (circuit_breaker_record rt x a w).1
  unfolding circuit_breaker_record record_cost
  record-trips x a w (b, h, t) = rw h (record_cost x b, refl, ground arith)

  pub effective-tripped :
      (c : String) (per : Bool) (a : Attempt F) (w : World F S) (b : CircuitBreaker F)
      → w.circuit_breaker ≡ some b
      → ((circuit_breaker_effective rt c per a w).0 ≡ ok (effective_degraded b per))
        × ((circuit_breaker_effective rt c per a w).1.circuit_breaker ≡ w.circuit_breaker)
  unfolding circuit_breaker_effective log_info
  effective-tripped c per a w b h = rw h (refl, refl)

  pub route_task-plain :
      (c : String) (t : Task) (b : Bool) (a : Attempt F) (w : World F S)
      → (route_task rt c t b a w).1.circuit_breaker ≡ w.circuit_breaker
  unfolding route_task
  route_task-plain c t b a w =
      let (r, log) = route rt.env default_cost_model t b w.route_log in
      routed-plain c r (record w { route_log = log })

module _ {F S : Type 0} ⦃f : Float F⦄ (rt : Runtime F S) (id : String) where
  Action-IsTripped : {w w' : World F S} → Action rt id w w' → IsTripped w → IsTripped w'
  unfolding reserve_usage settle_usage mark_status log_event log_info
  Action-IsTripped (checks who a w) h =
      IsTripped-eq w (check_rate_limit rt who a w).1 (check_rate_limit-plain rt who a w) h
  Action-IsTripped (reserves c who x a w) h = h
  Action-IsTripped (consults c b a w) h =
      IsTripped-eq w (circuit_breaker_effective rt c b a w).1
        (effective-tripped rt c b a w h.0 h.1).1 h
  Action-IsTripped (routes c t b a w) h =
      IsTripped-eq w (route_task rt c t b a w).1 (route_task-plain rt c t b a w) h
  Action-IsTripped (settles c who x y a w) h = h
  Action-IsTripped (records x a w) h = record-trips rt x a w h
  Action-IsTripped (dispatches c other who name d t sim a w) h =
      IsTripped-eq w (dispatch_task rt c other who name d t sim a w).1
        (dispatch_task-plain rt c other who name d t sim a w) h
  Action-IsTripped (marks c other st e t p x a w ne) h = h
  Action-IsTripped (logs c event payload a w) h = h
  Action-IsTripped (registers key other w) h = h
  Action-IsTripped (creates other b key c now w ne) h = h
  Action-IsTripped (counts n w) h = h

  -- A tripped breaker stays so, whatever others do.
  pub Actions-IsTripped : {w w' : World F S} → Actions rt id w w' → IsTripped w → IsTripped w'
  Actions-IsTripped nothing h = h
  Actions-IsTripped (then_one before last) h = Action-IsTripped last (Actions-IsTripped before h)
