-- ===== src/Orchestrator/Core/Shared.antt =====
-- orchestrator/core.py: the orchestrators of one process, and the function `orchestrate` of the
-- module, which takes the default one unless it is given another. Orchestrators that are made
-- without a ledger or a logger share those of the module.
pub mod Ledgers
use routing.Prelude.{ℕ, ◌==ℕ◌, String, Bool, Option, none, some, List, if◌then◌else◌}
use routing.Prelude.Float.{Float}
use routing.Prelude.Result.{Result}
use routing.Matrix.Model.{Task, PyError}
use routing.Matrix.Tiers.{Environ}
use routing.Matrix.Route.{RouteEntry}
use routing.Matrix.Providers.{ProviderRegistry}
use routing.Orchestrator.Usage.{UsageLedger}
use routing.Orchestrator.Core as Method
use routing.Orchestrator.Core.{OrchestrationResult, State}

-- The ledgers and the loggers of the process are numbered; `DEFAULT_LEDGER` and `DECISION_LOGGER`
-- have the number nought.
pub record Orchestrator : Type 0 where
  pub usage_ledger : ℕ
  pub decision_logger : ℕ

abbrev pub default_ledger : ℕ
default_ledger = 0

abbrev pub default_logger : ℕ
default_logger = 0

abbrev pub given : Option ℕ → ℕ → ℕ
given none d = d
given (some n) d = n

unfoldable pub new_orchestrator : Option ℕ → Option ℕ → Orchestrator
new_orchestrator usage_ledger decision_logger = record {
  usage_ledger = given usage_ledger default_ledger;
  decision_logger = given decision_logger default_logger;
}

unfoldable pub default_orchestrator : Orchestrator
unfolding new_orchestrator
default_orchestrator = new_orchestrator none none

-- `orchestrator if orchestrator is not None else DEFAULT_ORCHESTRATOR`
unfoldable pub or_shared : Option Orchestrator → Orchestrator
unfolding default_orchestrator
or_shared none = default_orchestrator
or_shared (some o) = o

abbrev pub put : {A : Type 0} → ℕ → A → (ℕ → A) → ℕ → A
put n a f k = if k ==ℕ n then a else f k

-- The objects of a process that calls change.
pub record Process (F : Type 0) : Type 0 where
  pub ledgers : ℕ → UsageLedger F
  pub decision_logs : ℕ → List (OrchestrationResult F)
  pub registry : ProviderRegistry
  pub route_log : List (RouteEntry F)

module _ {F : Type 0} where
  -- What a call of an orchestrator's method works on.
  unfoldable pub fetch : Orchestrator → Process F → State F
  fetch o p = record {
    ledger = p.ledgers o.usage_ledger;
    registry = p.registry;
    route_log = p.route_log;
    decision_log = p.decision_logs o.decision_logger;
  }

  unfoldable pub leave : Orchestrator → State F → Process F → Process F
  leave o s p = record {
    ledgers = put o.usage_ledger s.ledger p.ledgers;
    decision_logs = put o.decision_logger s.decision_log p.decision_logs;
    registry = s.registry;
    route_log = s.route_log;
  }

module _ {F : Type 0} ⦃f : Float F⦄ where
  -- The module's `orchestrate`.
  unfoldable pub orchestrate :
      Environ
      → Task
      → Option String
      → Bool
      → Option Orchestrator
      → Option String
      → Process F
      → Result PyError (OrchestrationResult F) × Process F
  unfolding fetch leave or_shared
  orchestrate env task account_id degraded orchestrator provider_name p =
      let impl = or_shared orchestrator in
      let (r, s) = Method.orchestrate env task account_id degraded provider_name (fetch impl p) in
      (r, leave impl s p)
