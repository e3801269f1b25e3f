-- ===== src/Orchestrator/Workflow/Others/Claims.antt =====
-- Claimed keys through the activities of orchestrator/workflow.py and through what others do.
use routing.Prelude.{◌≡◌, refl, ◌∙◌, ap, String, Bool, Option, some, arith, Bool-cases, inl, inr}
use routing.Prelude.Float.{Float}
use routing.Prelude.Result.{Result, ok, err}
use routing.Matrix.Model.{PyError, Task, RoutingDecision, default_cost_model}
use routing.Matrix.Route.{route}
use routing.Matrix.Providers.{Dispatched, parse_provider, dispatch}
use routing.Orchestrator.Store.Protocol.Laws.{IsStore}
use routing.Orchestrator.Workflow.World.{Attempt, World, Runtime}
use routing.Orchestrator.Workflow.Activities.{
  is_dispatch, log_info, check_rate_limit, reserve_usage, circuit_breaker_effective, routed,
  route_task, settle_usage, circuit_breaker_record, hand_off, dispatch_task, mark_status, log_event,
}
use routing.Orchestrator.Workflow.Others.{
  Action, checks, reserves, consults, routes, settles, records, dispatches, marks, logs, registers,
  creates, counts, Actions, nothing, then_one,
}

-- The activities that do not call the store leave it as it is.
module _ {F S : Type 0} ⦃f : Float F⦄ (rt : Runtime F S) where
  check_rate_limit-store :
      (who : String) (a : Attempt F) (w : World F S)
      → (check_rate_limit rt who a w).1.store ≡ w.store
  unfolding check_rate_limit
  check_rate_limit-store who a w = ground arith

  effective-store :
      (c : String) (b : Bool) (a : Attempt F) (w : World F S)
      → (circuit_breaker_effective rt c b a w).1.store ≡ w.store
  unfolding circuit_breaker_effective log_info
  effective-store c b a w = ground arith

  record-store :
      (x : F) (a : Attempt F) (w : World F S) → (circuit_breaker_record rt x a w).1.store ≡ w.store
  unfolding circuit_breaker_record
  record-store x a w = ground arith

  routed-store :
      (c : String) (r : Result PyError (RoutingDecision F)) (w : World F S)
      → (routed rt c r w).1.store ≡ w.store
  unfolding log_info
  routed-store c (ok d) w = refl
  routed-store c (err e) w = refl

  route_task-store :
      (c : String) (t : Task) (b : Bool) (a : Attempt F) (w : World F S)
      → (route_task rt c t b a w).1.store ≡ w.store
  unfolding route_task
  route_task-store c t b a w =
      let (r, log) = route rt.env default_cost_model t b w.route_log in
      routed-store c r (record w { route_log = log })

  hand_off-store :
      (c other who : String) (d : RoutingDecision F) (t : Task) (p : String)
      (r : Result PyError Dispatched) (w : World F S)
      → (hand_off rt c other who d t p r w).1.store ≡ w.store
  unfolding log_info
  hand_off-store c other who d t p (ok x) w = refl
  hand_off-store c other who d t p (err e) w = refl

  dispatch_task-store :
      (c other who : String) (name : Option String) (d : RoutingDecision F) (t : Task)
      (sim : Option String) (a : Attempt F) (w : World F S)
      → (dispatch_task rt c other who name d t sim a w).1.store ≡ w.store
  unfolding dispatch_task
  dispatch_task-store c other who name d t sim a w =
      let p = parse_provider rt.env name in
      let (x, registry) = dispatch p d.model_pointer w.registry in
      elim (Bool-cases (is_dispatch sim)) [
        | inl fails ↦ rw fails refl
        | inr goes ↦ rw goes (hand_off-store c other who d t p x (record w { registry = registry }))
      ]

module _ {F S : Type 0} ⦃f : Float F⦄ (rt : Runtime F S) (laws : IsStore F S rt.ops)
    (id key owner : String) where
  -- The key stands for the task `owner`.
  abbrev pub IsClaimed : S → Type 0
  IsClaimed s = rt.ops.get_idempotency key s ≡ some owner

  IsClaimed-eq : {s t : S} → t ≡ s → IsClaimed s → IsClaimed t
  IsClaimed-eq e h = ap (rt.ops.get_idempotency key) e ∙ h

  Action-IsClaimed : {w w' : World F S} → Action rt id w w' → IsClaimed w.store → IsClaimed w'.store
  unfolding reserve_usage settle_usage mark_status log_event log_info
  Action-IsClaimed (checks who a w) h = IsClaimed-eq (check_rate_limit-store rt who a w) h
  Action-IsClaimed (reserves c who x a w) h = laws.keys-reserve who x a.now w.store key ∙ h
  Action-IsClaimed (consults c b a w) h = IsClaimed-eq (effective-store rt c b a w) h
  Action-IsClaimed (routes c t b a w) h = IsClaimed-eq (route_task-store rt c t b a w) h
  Action-IsClaimed (settles c who x y a w) h = laws.keys-settle who x y a.now w.store key ∙ h
  Action-IsClaimed (records x a w) h = IsClaimed-eq (record-store rt x a w) h
  Action-IsClaimed (dispatches c other who name d t sim a w) h =
      IsClaimed-eq (dispatch_task-store rt c other who name d t sim a w) h
  Action-IsClaimed (marks c other st e t p x a w ne) h =
      laws.keys-set_status other st e t p x a.now w.store key ∙ h
  Action-IsClaimed (logs c event payload a w) h = h
  Action-IsClaimed (registers k other w) h = laws.keys-register k other w.store key owner h
  Action-IsClaimed (creates other b k c now w ne) h =
      laws.create-keys other b k c now w.store key ∙ h
  Action-IsClaimed (counts n w) h = h

  -- A claimed key stays claimed by the same task, whatever others do.
  pub Actions-IsClaimed :
      {w w' : World F S} → Actions rt id w w' → IsClaimed w.store → IsClaimed w'.store
  Actions-IsClaimed nothing h = h
  Actions-IsClaimed (then_one before last) h = Action-IsClaimed last (Actions-IsClaimed before h)
