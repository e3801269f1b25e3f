-- ===== src/Orchestrator/Workflow/Rows.antt =====
-- The row of a task, as its account reads it, through the activities of orchestrator/workflow.py, over
-- any store that keeps the laws.
use routing.Prelude.{
  ◌≡◌, ◌≢◌, refl, ◌∙◌, inl, inr, String, eq_refl, eq_iff, Bool, Option, some, arith, Bool-cases,
}
use routing.Prelude.Float.{Float}
use routing.Prelude.Result.{Result, ok, err}
use routing.Matrix.Model.{PyError, Task, RoutingDecision, default_cost_model}
use routing.Matrix.Route.{route}
use routing.Matrix.Providers.{Dispatched, parse_provider, dispatch}
use routing.Orchestrator.Store.Tables.{Status, TaskRow, with_status}
use routing.Orchestrator.Store.Protocol.{Store}
use routing.Orchestrator.Store.Protocol.Laws.{IsStore}
use routing.Orchestrator.Workflow.World.{Attempt, World, Runtime}
use routing.Orchestrator.Workflow.Activities.{
  is_dispatch, log_info, check_rate_limit, reserve_usage, circuit_breaker_effective, routed,
  route_task, settle_usage, circuit_breaker_record, hand_off, dispatch_task, mark_status,
}

module _ {F S : Type 0} ⦃f : Float F⦄ (rt : Runtime F S) (laws : IsStore F S rt.ops)
    (id acct : String) where
  open laws use {get-set_status, get-reserve, get-settle}

  abbrev pub read : World F S → Option (TaskRow F)
  read w = let ops : Store F S = rt.ops in ops.get_task id acct w.store

  -- The account can read a row of the task.
  abbrev pub HasRow : World F S → Type 0
  HasRow w = (r : TaskRow F) × (read w ≡ some r)

  pub HasRow-eq : (w w' : World F S) → read w' ≡ read w → HasRow w → HasRow w'
  HasRow-eq w w' e h = (h.0, e ∙ h.1)

  pub check_rate_limit-row :
      (who : String) (a : Attempt F) (w : World F S) → read (check_rate_limit rt who a w).1 ≡ read w
  unfolding check_rate_limit
  check_rate_limit-row who a w = ground arith

  pub reserve_usage-row :
      (c who : String) (x : F) (a : Attempt F) (w : World F S)
      → read (reserve_usage rt c who x a w).1 ≡ read w
  unfolding reserve_usage log_info
  reserve_usage-row c who x a w = get-reserve who x a.now w.store id acct

  pub effective-row :
      (c : String) (b : Bool) (a : Attempt F) (w : World F S)
      → read (circuit_breaker_effective rt c b a w).1 ≡ read w
  unfolding circuit_breaker_effective log_info
  effective-row c b a w = ground arith

  routed-row :
      (c : String) (r : Result PyError (RoutingDecision F)) (w : World F S)
      → read (routed rt c r w).1 ≡ read w
  unfolding log_info
  routed-row c (ok d) w = refl
  routed-row c (err e) w = refl

  pub route_task-row :
      (c : String) (t : Task) (b : Bool) (a : Attempt F) (w : World F S)
      → read (route_task rt c t b a w).1 ≡ read w
  unfolding route_task
  route_task-row c t b a w =
      let (r, log) = route rt.env default_cost_model t b w.route_log in
      routed-row c r (record w { route_log = log })

  pub settle_usage-row :
      (c who : String) (x y : F) (a : Attempt F) (w : World F S)
      → read (settle_usage rt c who x y a w).1 ≡ read w
  unfolding settle_usage log_info
  settle_usage-row c who x y a w = get-settle who x y a.now w.store id acct

  pub record-row :
      (x : F) (a : Attempt F) (w : World F S) → read (circuit_breaker_record rt x a w).1 ≡ read w
  unfolding circuit_breaker_record
  record-row x a w = ground arith

  hand_off-row :
      (c task_id who : String) (d : RoutingDecision F) (t : Task) (p : String)
      (r : Result PyError Dispatched) (w : World F S)
      → read (hand_off rt c task_id who d t p r w).1 ≡ read w
  unfolding log_info
  hand_off-row c task_id who d t p (ok x) w = refl
  hand_off-row c task_id who d t p (err e) w = refl

  pub dispatch_task-row :
      (c task_id who : String) (name : Option String) (d : RoutingDecision F) (t : Task)
      (sim : Option String) (a : Attempt F) (w : World F S)
      → read (dispatch_task rt c task_id who name d t sim a w).1 ≡ read w
  unfolding dispatch_task
  dispatch_task-row c task_id who name d t sim a w =
      let p = parse_provider rt.env name in
      let (x, registry) = dispatch p d.model_pointer w.registry in
      elim (Bool-cases (is_dispatch sim)) [
        | inl fails ↦ rw fails refl
        | inr goes ↦ rw goes (hand_off-row c task_id who d t p x (record w { registry = registry }))
      ]

  -- A status write of another task.
  pub mark_status-other :
      (c other : String) (st : Status) (e t p : Option String) (x : Option F) (a : Attempt F)
      (w : World F S)
      → other ≢ id
      → read (mark_status rt c other st e t p x a w).1 ≡ read w
  unfolding mark_status log_info
  mark_status-other c other st e t p x a w ne =
      ground (arith, get-set_status other st e t p x a.now w.store id acct, eq_iff other id)

  -- The row after a status write of this task.
  pub mark_status-row :
      (c : String) (st : Status) (e t p : Option String) (x : Option F) (a : Attempt F)
      (w : World F S) (r : TaskRow F)
      → read w ≡ some r
      → read (mark_status rt c id st e t p x a w).1 ≡ some (with_status st e t p x a.now r)
  unfolding mark_status log_info
  mark_status-row c st e t p x a w r h =
      ground (arith, get-set_status id st e t p x a.now w.store id acct, eq_refl id)

  pub mark_status-HasRow :
      (c : String) (st : Status) (e t p : Option String) (x : Option F) (a : Attempt F)
      (w : World F S)
      → HasRow w
      → HasRow (mark_status rt c id st e t p x a w).1
  mark_status-HasRow c st e t p x a w (r, h) =
      (with_status st e t p x a.now r, mark_status-row c st e t p x a w r h)
