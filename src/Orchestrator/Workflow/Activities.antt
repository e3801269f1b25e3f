-- ===== src/Orchestrator/Workflow/Activities.antt =====
-- The activities of orchestrator/workflow.py. What they read of `args` are their arguments.
use routing.Prelude.{
  String, ◌==◌, Bool, true, false, Option, none, some, List, [], ◌∷◌, ◌++◌, if◌then◌else◌,
}
use routing.Prelude.Float.{Float}
use routing.Prelude.Dict.{Dict}
use routing.Prelude.Result.{Result, ok, err}
use routing.Matrix.Model.{
  Task, RoutingDecision, PyError, runtime_error, default_cost_model, tier_name,
}
use routing.Matrix.Route.{route}
use routing.Matrix.Providers.{Dispatched, parse_provider, dispatch}
use routing.Orchestrator.Breaker.{effective_degraded, record_cost, frontier_allowed}
use routing.Orchestrator.RateLimit.{allow}
use routing.Orchestrator.Logging.{
  Json, null, text, flag, num, object, LogRecord, make_record, info, with_correlation_fields, end,
  item,
}
use routing.Orchestrator.Store.Tables.{Status, accepted, running, completed, failed, Reservation}
use routing.Orchestrator.Store.Protocol.{Store}
use routing.Orchestrator.Stubs.{StubResult, execute, deploy, record_royalty, route_payment}
use routing.Orchestrator.Workflow.Inputs.{TaskInput, to_task}
use routing.Orchestrator.Workflow.World.{World, Runtime, Body}

pub record DispatchOut : Type 0 where
  pub provider : String
  pub dispatched : Dispatched
  pub execution : StubResult
  pub deployment : StubResult
  pub royalty : StubResult
  pub payment : StubResult

abbrev pub status_name : Status → String
status_name accepted = "ACCEPTED"
status_name running = "RUNNING"
status_name completed = "COMPLETED"
status_name failed = "FAILED"

module _ {F : Type 0} where
  abbrev pub opt_text : Option String → Json F
  opt_text none = null
  opt_text (some s) = text s

  abbrev pub payload_of : Dispatched → Json F
  payload_of d = object (
      item "provider" (text d.provider)
        (item "model_pointer" (text d.model_pointer) (item "status" (text d.status) end)))

-- The test hook of `dispatch_task`.
abbrev pub is_dispatch : Option String → Bool
is_dispatch none = false
is_dispatch (some s) = s == "dispatch"

abbrev pub event_name : Option String → String
event_name none = "orchestrator_event"
event_name (some e) = e

module _ {F S : Type 0} where
  -- `JSON_LOGGER.info(event, extra=with_correlation_fields(correlation_id, extra))` with fields of the
  -- activities, none of which has the name of an attribute.
  unfoldable pub log_info : String → String → Dict (Json F) → World F S → World F S
  unfolding make_record with_correlation_fields
  log_info correlation_id event extra w = record w {
    log = w.log ++ (make_record event (with_correlation_fields correlation_id extra) ∷ []);
  }

module _ {F : Type 0} where
  abbrev pub done_or : Result PyError (LogRecord F) → Result PyError (Unit {0})
  done_or (ok r) = ok tt
  done_or (err e) = err e

  abbrev pub appended : Result PyError (LogRecord F) → List (LogRecord F) → List (LogRecord F)
  appended (ok r) log = log ++ (r ∷ [])
  appended (err e) log = log

module _ {F S : Type 0} ⦃f : Float F⦄ (rt : Runtime F S) where
  abbrev ops : Store F S
  ops = rt.ops

  unfoldable pub check_rate_limit : String → Body F S Bool
  check_rate_limit account_id a w = elim w.rate_limiter [
    | none ↦ (ok true, w)
    | some l ↦ (
      ok (allow l account_id a.monotonic).0,
      record w { rate_limiter = some (allow l account_id a.monotonic).1 },
    )
  ]

  unfoldable pub reserve_usage : String → String → F → Body F S (Reservation F)
  unfolding log_info
  reserve_usage correlation_id account_id projected_cost a w =
      let (res, store) = ops.reserve account_id projected_cost a.now w.store in
      (
        ok res,
        log_info correlation_id "usage_reserved"
            (("account_id", text account_id)
              ∷ ("projected_cost", num projected_cost)
              ∷ ("degraded", flag res.degraded)
              ∷ ("balance", num res.balance)
              ∷ [])
            (record w { store = store }),
      )

  unfoldable pub circuit_breaker_effective : String → Bool → Body F S Bool
  unfolding log_info effective_degraded
  circuit_breaker_effective correlation_id per_account a w = elim w.circuit_breaker [
    | none ↦ (ok per_account, w)
    | some b ↦ (
      ok (effective_degraded b per_account),
      log_info correlation_id "circuit_breaker_effective"
          (("per_account_degraded", flag per_account)
            ∷ ("tripped", flag b.tripped)
            ∷ ("effective_degraded", flag (effective_degraded b per_account))
            ∷ [])
          w,
    )
  ]

  abbrev pub routed :
      String
      → Result PyError (RoutingDecision F)
      → World F S
      → Result PyError (RoutingDecision F) × World F S
  routed correlation_id (err e) w = (err e, w)
  routed correlation_id (ok d) w = (
    ok d,
    log_info correlation_id "routed"
        (("tier", text (tier_name d.tier))
          ∷ ("model_pointer", text d.model_pointer)
          ∷ ("degraded", flag d.degraded)
          ∷ ("estimated_cost", num d.estimated_cost)
          ∷ [])
        w,
  )

  unfoldable pub route_task : String → TaskInput → Bool → Body F S (RoutingDecision F)
  unfolding log_info
  route_task correlation_id task degraded a w =
      let (decision, log) = route rt.env default_cost_model (to_task task) degraded w.route_log in
      routed correlation_id decision (record w { route_log = log })

  unfoldable pub settle_usage : String → String → F → F → Body F S F
  unfolding log_info
  settle_usage correlation_id account_id reserved actual a w =
      let (balance, store) = ops.settle account_id reserved actual a.now w.store in
      (
        ok balance,
        log_info correlation_id "usage_settled"
            (("account_id", text account_id)
              ∷ ("reserved", num reserved)
              ∷ ("actual", num actual)
              ∷ ("balance", num balance)
              ∷ [])
            (record w { store = store }),
      )

  unfoldable pub circuit_breaker_record : F → Body F S Bool
  unfolding record_cost frontier_allowed
  circuit_breaker_record cost a w = elim w.circuit_breaker [
    | none ↦ (ok true, w)
    | some b ↦ (
      ok (frontier_allowed (record_cost cost b)),
      record w { circuit_breaker = some (record_cost cost b) },
    )
  ]

  abbrev pub hand_off :
      String
      → String
      → String
      → RoutingDecision F
      → Task
      → String
      → Result PyError Dispatched
      → World F S
      → Result PyError DispatchOut × World F S
  hand_off correlation_id task_id account_id decision task provider (err e) w = (err e, w)
  hand_off correlation_id task_id account_id decision task provider (ok d) w = (
    ok (record {
      provider = provider;
      dispatched = d;
      execution = execute decision.model_pointer task;
      deployment = deploy task_id (tier_name decision.tier, decision.model_pointer);
      royalty = record_royalty account_id task_id (f.dec 0);
      payment = route_payment account_id decision.estimated_cost;
    }),
    log_info correlation_id "dispatched"
        (("provider", text provider) ∷ ("dispatch", payload_of d) ∷ ("task_id", text task_id) ∷ [])
        w,
  )

  unfoldable pub dispatch_task :
      String
      → String
      → String
      → Option String
      → RoutingDecision F
      → Task
      → Option String
      → Body F S DispatchOut
  unfolding log_info
  dispatch_task correlation_id task_id account_id provider_name decision task simulate a w =
      let provider = parse_provider rt.env provider_name in
      let (d, registry) = dispatch provider decision.model_pointer w.registry in
      if is_dispatch simulate
      then (err (runtime_error "simulated dispatch failure for dead-letter test"), w)
      else hand_off correlation_id task_id account_id decision task provider d
          (record w { registry = registry })

  unfoldable pub mark_status :
      String
      → String
      → Status
      → Option String
      → Option String
      → Option String
      → Option F
      → Body F S (Unit {0})
  unfolding log_info
  mark_status correlation_id task_id status error tier pointer cost a w = (
    ok tt,
    log_info correlation_id "task_status"
        (("task_id", text task_id)
          ∷ ("status", text (status_name status))
          ∷ ("error", opt_text error)
          ∷ [])
        (record w {
          store = ops.set_task_status task_id status error tier pointer cost a.now w.store;
        }),
  )

  -- The payload is given as the dict that `json.loads` makes of it.
  unfoldable pub log_event : String → Option String → Dict (Json F) → Body F S (Unit {0})
  unfolding info with_correlation_fields
  log_event correlation_id event payload a w =
      let made = info (event_name event) (with_correlation_fields correlation_id payload) in
      (done_or made, record w { log = appended made w.log })
