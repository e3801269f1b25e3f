-- ===== src/Orchestrator/Workflow/Returns/Live.antt =====
-- A run of orchestrator/workflow.py returns, where the retries are enough.
use routing.Prelude.{◌≡◌, refl, ap, String, Bool, false, Option, Option-cases, inl, inr, some}
use routing.Prelude.Float.{Float}
use routing.Prelude.Result.{Result, ok, err}
use routing.Matrix.Model.{PyError, Tier, Task, RoutingDecision, default_cost_model}
use routing.Matrix.Tiers.{resolve_model_pointer}
use routing.Matrix.Route.Table.{chosen_tier, route_resolved}
use routing.Matrix.Providers.{Dispatched, parse_provider, dispatch}
use routing.Orchestrator.Store.Tables.{Status, TaskRow}
use routing.Orchestrator.Store.Protocol.Laws.{IsStore}
use routing.Orchestrator.Workflow.World.{Attempt, World, Runtime, Body, counted, activity}
use routing.Orchestrator.Workflow.Activities.{
  is_dispatch, log_info, check_rate_limit, reserve_usage, circuit_breaker_effective, routed,
  route_task, settle_usage, circuit_breaker_record, hand_off, dispatch_task, mark_status,
}
use routing.Orchestrator.Workflow.Run.{RunArgs, TaskResult, finish_steps, steps, catch, run}
use routing.Orchestrator.Workflow.Bound.{
  check_rate_limit-tick, reserve_usage-tick, effective-tick, route_task-tick, settle_usage-tick,
  record-tick, mark_status-tick, dispatch_task-tick,
}
use routing.Orchestrator.Workflow.Rows.{read, HasRow}
use routing.Orchestrator.Workflow.Others.{AreOthers}
use routing.Orchestrator.Workflow.Outcome.Ending.{IsCompleted, run_completes}
use routing.Orchestrator.Workflow.Returns.{
  Returns, Returns-bind, Returns-pure, IsPatient, activity-Returns,
}
use routing.Orchestrator.Workflow.Returns.Served.{
  IsServed, IsServed-eq, dispatch-found, check_rate_limit-registry, effective-registry,
  record-registry, route_task-registry, dispatch_task-IsServed, Actions-IsServed,
}

module _ {A : Type 0} where
  -- A result and no exception.
  abbrev IsOk : Result PyError A → Type 0
  IsOk r = (v : A) × (r ≡ ok v)

module _ {F S : Type 0} ⦃f : Float F⦄ (rt : Runtime F S) where
  check_rate_limit-IsOk :
      (who : String) (a : Attempt F) (w : World F S) → IsOk (check_rate_limit rt who a w).0
  unfolding check_rate_limit
  check_rate_limit-IsOk who a w = elim (Option-cases w.rate_limiter) [
    | inl e ↦ rw e (_, refl)
    | inr (l, e) ↦ rw e (_, refl)
  ]

  effective-IsOk :
      (c : String) (b : Bool) (a : Attempt F) (w : World F S)
      → IsOk (circuit_breaker_effective rt c b a w).0
  unfolding circuit_breaker_effective
  effective-IsOk c b a w = elim (Option-cases w.circuit_breaker) [
    | inl e ↦ rw e (_, refl)
    | inr (x, e) ↦ rw e (_, refl)
  ]

  record-IsOk : (x : F) (a : Attempt F) (w : World F S) → IsOk (circuit_breaker_record rt x a w).0
  unfolding circuit_breaker_record
  record-IsOk x a w = elim (Option-cases w.circuit_breaker) [
    | inl e ↦ rw e (_, refl)
    | inr (b, e) ↦ rw e (_, refl)
  ]

  -- The pointer of every tier resolves.
  abbrev pub IsConfigured : Type 0
  IsConfigured = (t : Tier) → (p : String) × (resolve_model_pointer rt.env t ≡ ok p)

  route_task-IsOk :
      IsConfigured
      → (c : String) (t : Task) (b : Bool) (a : Attempt F) (w : World F S)
      → IsOk (route_task rt c t b a w).0
  unfolding route_task
  route_task-IsOk set c t b a w =
      let (p, found) = set (chosen_tier t b) in
      let (d, e, good) = route_resolved rt.env default_cost_model t b w.route_log p found in
      (d, ap (λ q. (routed rt c q.0 (record w { route_log = q.1 })).0) e)

  hand_off-IsOk :
      (c id who : String) (d : RoutingDecision F) (t : Task) (p : String)
      (r : Result PyError Dispatched) (w : World F S)
      → IsOk r
      → IsOk (hand_off rt c id who d t p r w).0
  hand_off-IsOk c id who d t p (ok x) w h = (_, refl)
  hand_off-IsOk c id who d t p (err e) w (x, h) = absurd (cc)

  dispatch_task-IsOk :
      (c id who : String) (name : Option String) (d : RoutingDecision F) (t : Task)
      (sim : Option String) (a : Attempt F) (w : World F S)
      → is_dispatch sim ≡ false
      → IsServed (parse_provider rt.env name) w
      → IsOk (dispatch_task rt c id who name d t sim a w).0
  unfolding dispatch_task
  dispatch_task-IsOk c id who name d t sim a w goes h =
      let p = parse_provider rt.env name in
      let (x, registry) = dispatch p d.model_pointer w.registry in
      rw goes (
        hand_off-IsOk c id who d t p x (record w { registry = registry })
          (dispatch-found p d.model_pointer w.registry h))

module _ {F S : Type 0} ⦃f : Float F⦄ (rt : Runtime F S) (args : RunArgs)
    (calm : AreOthers rt args.wf_id) (patient : IsPatient rt) (set : IsConfigured rt)
    (goes : is_dispatch args.simulate_failure ≡ false) where
  open args use {wf_id, task, account_id, correlation_id, provider_name, simulate_failure}

  -- The provider that the run asks for is registered and answers.
  abbrev pub Ready : World F S → Type 0
  Ready = IsServed (parse_provider rt.env provider_name)

  counted-Ready : (w : World F S) → Ready w → Ready (counted rt w)
  counted-Ready w h =
      Actions-IsServed rt (parse_provider rt.env provider_name) wf_id (calm.at w.tick w) h

  -- An activity that has a result wherever the provider is served, and leaves it served.
  works :
      {A : Type 0} (body : Body F S A)
      → ((a : Attempt F) (w : World F S) → (body a w).1.tick ≡ w.tick)
      → ((a : Attempt F) (w : World F S) → Ready w → Ready (body a w).1)
      → ((a : Attempt F) (w : World F S) → Ready w → IsOk (body a w).0)
      → Returns Ready (activity rt body)
  works body same kept has =
      activity-Returns rt patient Ready body counted-Ready same
        λ a w h. let (v, e) = has a w h in (v, (body a w).1, λ i. (e i, (body a w).1), kept a w h)

  -- An activity that leaves the registry alone.
  still :
      {A : Type 0} (body : Body F S A)
      → ((a : Attempt F) (w : World F S) → (body a w).1.registry ≡ w.registry)
      → (a : Attempt F) (w : World F S) → Ready w
      → Ready (body a w).1
  still body same a w h =
      IsServed-eq (parse_provider rt.env provider_name) w (body a w).1 (same a w) h

  marks_own :
      (st : Status) (e t p : Option String) (x : Option F)
      → Returns Ready (activity rt (mark_status rt correlation_id wf_id st e t p x))
  unfolding mark_status log_info
  marks_own st e t p x =
      works (mark_status rt correlation_id wf_id st e t p x)
        (mark_status-tick rt correlation_id wf_id st e t p x) (λ a w h. h) (λ a w h. (_, refl))

  reserves_own :
      (x : F) → Returns Ready (activity rt (reserve_usage rt correlation_id account_id x))
  unfolding reserve_usage log_info
  reserves_own x =
      works (reserve_usage rt correlation_id account_id x)
        (reserve_usage-tick rt correlation_id account_id x) (λ a w h. h) (λ a w h. (_, refl))

  settles_own :
      (x y : F) → Returns Ready (activity rt (settle_usage rt correlation_id account_id x y))
  unfolding settle_usage log_info
  settles_own x y =
      works (settle_usage rt correlation_id account_id x y)
        (settle_usage-tick rt correlation_id account_id x y) (λ a w h. h) (λ a w h. (_, refl))

  finish_steps-Returns : (d : RoutingDecision F) → Returns Ready (finish_steps rt args d)
  unfolding finish_steps
  finish_steps-Returns d =
      Returns-bind _ _
        (works _ (dispatch_task-tick rt _ _ _ _ d _ _) (dispatch_task-IsServed rt _ _ _ _ _ d _ _)
          λ a w h. dispatch_task-IsOk rt _ _ _ _ d _ _ a w goes h)
        λ out. Returns-bind _ _ (marks_own _ _ _ _ _) λ u. Returns-pure _

  steps-Returns : Returns Ready (steps rt args)
  unfolding steps
  steps-Returns = Returns-bind _ _ (marks_own _ _ _ _ _) λ u.
      Returns-bind _ _
        (works _ (check_rate_limit-tick rt _)
          (still (check_rate_limit rt _) (check_rate_limit-registry rt _))
          λ a w h. check_rate_limit-IsOk rt _ a w)
        λ l. Returns-bind _ _ (reserves_own _) λ r.
          Returns-bind _ _
            (works _ (effective-tick rt _ _)
              (still (circuit_breaker_effective rt _ _) (effective-registry rt _ _))
              λ a w h. effective-IsOk rt _ _ a w)
            λ b.
              Returns-bind _ _
                (works _ (route_task-tick rt _ _ b)
                  (still (route_task rt _ _ b) (route_task-registry rt _ _ b))
                  λ a w h. route_task-IsOk rt set _ _ b a w)
                λ d. Returns-bind _ _ (settles_own _ _) λ x.
                  Returns-bind _ _
                    (works _ (record-tick rt _)
                      (still (circuit_breaker_record rt _) (record-registry rt _))
                      λ a w h. record-IsOk rt _ a w)
                    λ o. finish_steps-Returns d

  -- If a worker takes every attempt in time and among any three in a row one runs, the three pointers
  -- are configured, the provider is registered with a factory and an adapter that do not raise, no
  -- failure is simulated and the account can read a row of the task, then the run returns, whatever the
  -- balance, the breaker and the limiter are and whatever others do meanwhile, and the row that the
  -- account reads is COMPLETED with the decision.
  pub run_returns :
      (laws : IsStore F S rt.ops) (w : World F S)
      → Ready w
      → HasRow rt laws wf_id account_id w
      → (res : TaskResult F) × (w' : World F S) × (run rt args w ≡ (ok res, w'))
        × ((r : TaskRow F) × (read rt laws wf_id account_id w' ≡ some r)
            × IsCompleted res.decision r)
  unfolding run catch
  run_returns laws w h there =
      let (res, w', e, ready) = steps-Returns.at w h in
      let returned : run rt args w ≡ (ok res, w') = ap (catch rt args) e in
      (res, w', returned, run_completes rt laws args calm w w' res there returned)
