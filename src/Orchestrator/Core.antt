-- ===== src/Orchestrator/Core.antt =====
-- orchestrator/core.py: `Orchestrator.orchestrate`, over the ledger and the provider registry.
pub mod Calls
pub mod Shared
use routing.Prelude.{String, ◌==◌, Bool, Option, none, some, List, [], ◌∷◌, ◌++◌, if◌then◌else◌}
use routing.Prelude.Float.{Float}
use routing.Prelude.Result.{Result, ok, err}
use routing.Matrix.Model.{Task, RoutingDecision, PyError, default_cost_model, tier_name}
use routing.Matrix.Tiers.{Environ}
use routing.Matrix.Route.{RouteEntry, route}
use routing.Matrix.Providers.{Dispatched, ProviderRegistry, parse_provider, dispatch}
use routing.Orchestrator.Usage.{UsageLedger, UsageSnapshot, default_account, record_usage, snapshot}

pub record OrchestrationResult (F : Type 0) : Type 0 where
  pub task : Task
  pub account_id : String
  pub decision : RoutingDecision F
  pub provider : String
  pub dispatched : Dispatched
  pub usage : UsageSnapshot F

-- The objects that a call changes: the ledger, the registry, and the lines of the two loggers.
pub record State (F : Type 0) : Type 0 where
  pub ledger : UsageLedger F
  pub registry : ProviderRegistry
  pub route_log : List (RouteEntry F)
  pub decision_log : List (OrchestrationResult F)

-- `account_id or DEFAULT_ACCOUNT`
unfoldable pub or_default : Option String → String
or_default none = default_account
or_default (some a) = if a == "" then default_account else a

module _ {F : Type 0} ⦃f : Float F⦄ where
  -- What follows the dispatch: the plan and the log line.
  unfoldable pub finish :
      Task
      → String
      → RoutingDecision F
      → String
      → Result PyError Dispatched
      → State F
      → Result PyError (OrchestrationResult F) × State F
  finish task account_id decision provider (err e) s = (err e, s)
  finish task account_id decision provider (ok d) s =
      let result : OrchestrationResult F = record {
        task = task;
        account_id = account_id;
        decision = decision;
        provider = provider;
        dispatched = d;
        usage = snapshot s.ledger account_id;
      } in
      (ok result, record s { decision_log = s.decision_log ++ (result ∷ []) })

  -- What follows the routing: the usage is recorded, and the provider is asked.
  unfoldable pub account_for :
      Environ
      → Task
      → String
      → Option String
      → Result PyError (RoutingDecision F)
      → State F
      → Result PyError (OrchestrationResult F) × State F
  unfolding finish
  account_for env task account_id provider_name (err e) s = (err e, s)
  account_for env task account_id provider_name (ok decision) s =
      let ledger =
        record_usage s.ledger account_id (tier_name decision.tier) decision.estimated_cost in
      let provider = parse_provider env provider_name in
      let (d, registry) = dispatch provider decision.model_pointer s.registry in
      finish task account_id decision provider d (record s { ledger = ledger; registry = registry })

  unfoldable pub orchestrate :
      Environ
      → Task
      → Option String
      → Bool
      → Option String
      → State F
      → Result PyError (OrchestrationResult F) × State F
  unfolding account_for
  orchestrate env task account_id degraded provider_name s =
      let (decision, log) = route env default_cost_model task degraded s.route_log in
      account_for env task (or_default account_id) provider_name decision
        (record s { route_log = log })
