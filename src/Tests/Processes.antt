-- ===== src/Tests/Processes.antt =====
-- Calls of `orchestrate` (orchestrator/core.py) through the orchestrators of one process.
use routing.Prelude.{ℕ, ◌≡◌, refl, true, Option, none, some, List, [], ◌∷◌, String}
use routing.Prelude.Dict.{lookup, insert}
use routing.Prelude.Float.{ticks}
use routing.Prelude.Text.{strip}
use routing.Matrix.Model.{tier_name, cost_for}
use routing.Matrix.Route.{propose, cap_tier, decide, log_decision, route}
use routing.Matrix.Tiers.{resolve_model_pointer}
use routing.Matrix.Providers.{
  default_registry, parse_provider, dispatch, get, create, register, echo_provider,
}
use routing.Orchestrator.Usage.{account, new_account, view, charge, record_usage, snapshot}
use routing.Orchestrator.Core as Method
use routing.Orchestrator.Core.{or_default, finish, account_for}
use routing.Orchestrator.Core.Shared.{
  Orchestrator, new_orchestrator, default_orchestrator, Process, or_shared, fetch, leave,
  orchestrate,
}
use routing.Orchestrator.Core.Shared.Ledgers.{
  Call, orchestrate_all, charges, orchestrate_all-ledgers,
}
use routing.Tests.Routes.{env, asked}

-- Nothing is charged yet.
abbrev process : Process ℕ
process = record {
  ledgers = λ n. [];
  decision_logs = λ n. [];
  registry = default_registry;
  route_log = [];
}

abbrev call : Option Orchestrator → Option String → Call
call o name = record {
  env = env;
  task = asked;
  account_id = some "ada";
  degraded = true;
  orchestrator = o;
  provider_name = name;
}

-- One call that names no orchestrator, one of an orchestrator with its own ledger, whose provider is
-- not registered, and one of an orchestrator that was made without a ledger.
abbrev calls : List Call
calls =
    call none (some "echo")
    ∷ call (some (record { usage_ledger = 1; decision_logger = 0 })) (some "nobody")
    ∷ call (some (record { usage_ledger = 0; decision_logger = 1 })) (some "echo")
    ∷ []

orchestrate_all-ledgers_example :
    (orchestrate_all calls process).ledgers 0 ≡ charges 0 calls (process.ledgers 0)
orchestrate_all-ledgers_example = orchestrate_all-ledgers 0 calls process

two_calls : (snapshot ((orchestrate_all calls process).ledgers 0) "ada").call_count ≡ 2
unfolding orchestrate fetch leave or_shared default_orchestrator new_orchestrator Method.orchestrate
    account_for finish route propose cap_tier decide log_decision cost_for resolve_model_pointer
    strip parse_provider dispatch get create register lookup insert record_usage charge account
    new_account snapshot view or_default tier_name echo_provider
two_calls = refl

one_call : (snapshot ((orchestrate_all calls process).ledgers 1) "ada").call_count ≡ 1
unfolding orchestrate fetch leave or_shared default_orchestrator new_orchestrator Method.orchestrate
    account_for finish route propose cap_tier decide log_decision cost_for resolve_model_pointer
    strip parse_provider dispatch get create register lookup insert record_usage charge account
    new_account snapshot view or_default tier_name echo_provider
one_call = refl
