-- ===== src/Tests/Limits.antt =====
-- The breaker, the limiter, the ledger, the log lines and the calls of the orchestrator at concrete
-- inputs.
use routing.Prelude.{All, String, ℕ, ◌≡◌, refl, true, false, not, ◌||◌, some, List, [], ◌∷◌, arith}
use routing.Prelude.Dict.{Dict, lookup, insert}
use routing.Prelude.Float.{ticks, ticks-IsFloat}
use routing.Prelude.Result.{ok, err}
use routing.Prelude.Text.{strip}
use routing.Matrix.Model.{key_error, tier_name, cost_for}
use routing.Matrix.Route.{propose, cap_tier, decide, log_decision, route}
use routing.Matrix.Tiers.{resolve_model_pointer}
use routing.Matrix.Providers.{
  default_registry, empty_registry, parse_provider, dispatch, get, create, register, echo_provider,
}
use routing.Orchestrator.Breaker.{CircuitBreaker, frontier_allowed, effective_degraded}
use routing.Orchestrator.Breaker.Trips.{record_all, crosses, tripped_iff}
use routing.Orchestrator.RateLimit.{TokenBucketLimiter, new_limiter}
use routing.Orchestrator.RateLimit.Buckets.{
  Call, ask, forget, serve_all, IsBounded, limiter-IsBounded,
}
use routing.Orchestrator.RateLimit.Burst.{answers, all_but_last, answers-burst}
use routing.Orchestrator.Usage.{
  UsageLedger, account, new_account, view, charge, record_usage, snapshot,
}
use routing.Matrix.Logging.Lines.{IsDict}
use routing.Orchestrator.Logging as Log
use routing.Orchestrator.Logging.Lines.{format-log_decision}
use routing.Orchestrator.Logging.{
  Json, format, text, int, info, LogRecord, among, own_attributes, clash,
}
use routing.Orchestrator.Core.{
  OrchestrationResult, State, or_default, finish, account_for, orchestrate,
}
use routing.Orchestrator.Core.Calls.{IsPlanned, Raised, orchestrate-ok, orchestrate-err}
use routing.Tests.Routes.{env, asked, held_back}

abbrev breaker : CircuitBreaker ℕ
breaker = record { rate_threshold = 100; aggregate_cost = 0; tripped = false }

tripped_iff_example :
    (effective_degraded (record_all (60 ∷ 50 ∷ []) breaker) false
      ≡ false || (false || crosses {F = ℕ} 100 0 (60 ∷ 50 ∷ [])))
    × (frontier_allowed (record_all (60 ∷ 50 ∷ []) breaker)
        ≡ not (false || crosses {F = ℕ} 100 0 (60 ∷ 50 ∷ [])))
tripped_iff_example = tripped_iff (60 ∷ 50 ∷ []) breaker false

abbrev limiter : TokenBucketLimiter ℕ
limiter = record { rate = 5_000; capacity = 20_000; buckets = []; updated = [] }

limits : new_limiter 5_000 20_000 ≡ ok limiter
unfolding new_limiter
limits = refl

abbrev calls : List (Call ℕ)
calls = ask "ada" 10 ∷ ask "ada" 20 ∷ forget (some "bob") ∷ ask "bob" 5 ∷ []

limiter-IsBounded_example : IsBounded (serve_all calls limiter)
limiter-IsBounded_example = limiter-IsBounded ticks-IsFloat 5_000 20_000 limiter calls limits

answers-burst_example : answers 3 "ada" 10 limiter ≡ all_but_last 2
answers-burst_example = answers-burst ticks-IsFloat 5_000 2 "ada" 10 limiter (omega arith) limits

abbrev ledger : UsageLedger ℕ
ledger = []

abbrev usages : Dict (String × ℕ)
usages = ("ada", ("standard", 1)) ∷ ("bob", ("advanced", 10)) ∷ ("ada", ("standard", 1)) ∷ []

-- The fields that the activities and the decision logger give to a record.
abbrev fields : List String
fields =
    "extra_fields" ∷ "correlation_id" ∷ "account_id" ∷ "projected_cost" ∷ "degraded" ∷ "balance"
    ∷ "per_account_degraded" ∷ "tripped" ∷ "effective_degraded" ∷ "tier" ∷ "model_pointer"
    ∷ "estimated_cost" ∷ "reserved" ∷ "actual" ∷ "provider" ∷ "dispatch" ∷ "task_id" ∷ "status"
    ∷ "error" ∷ []

no_clash : All (λ k. among k own_attributes ≡ false) fields
no_clash = (
  refl,
  (
    refl,
    (
      refl,
      (
        refl,
        (
          refl,
          (
            refl,
            (
              refl,
              (
                refl,
                (
                  refl,
                  (
                    refl,
                    (refl, (refl, (refl, (refl, (refl, (refl, (refl, (refl, (refl, tt))))))))),
                  ),
                ),
              ),
            ),
          ),
        ),
      ),
    ),
  ),
)

abbrev payload : Dict (Json ℕ)
payload = ("account_id", text "ada") ∷ ("calls", int 2) ∷ []

calls_in_payload : lookup "calls" payload ≡ some (int 2)
unfolding lookup
calls_in_payload = refl

payload-IsDict : IsDict payload
unfolding lookup
payload-IsDict = (refl, (refl, tt))

format-log_decision_example : lookup "calls" (format (Log.log_decision payload)) ≡ some (int 2)
format-log_decision_example =
    format-log_decision payload "calls" (int 2) payload-IsDict calls_in_payload

-- A field with the name of an attribute.
clashes :
    info {F = ℕ} "routed" (("calls", int 2) ∷ ("name", text "ada") ∷ []) ≡ err (key_error "name")
unfolding info clash
clashes = refl

abbrev state : State ℕ
state = record { ledger = []; registry = default_registry; route_log = []; decision_log = [] }

abbrev bare : State ℕ
bare = record { ledger = []; registry = empty_registry; route_log = []; decision_log = [] }

abbrev plan : OrchestrationResult ℕ
plan = record {
  task = asked;
  account_id = "ada";
  decision = held_back;
  provider = "echo";
  dispatched = record { provider = "echo"; model_pointer = "gpt-x"; status = "provisioned" };
  usage = record {
    account_id = "ada";
    total_cost = 10;
    call_count = 1;
    tiers_used = ("advanced", 1) ∷ [];
  };
}

planned :
    orchestrate env asked (some "ada") true (some "echo") state
    ≡ (ok plan, (orchestrate env asked (some "ada") true (some "echo") state).1)
unfolding orchestrate account_for finish route propose cap_tier decide log_decision cost_for
    resolve_model_pointer strip parse_provider dispatch get create register lookup insert
    record_usage charge account new_account snapshot view or_default tier_name echo_provider
planned = refl

orchestrate-ok_example :
    IsPlanned env asked
      (some "ada")
      true
      (some "echo")
      state
      plan
      (orchestrate env asked (some "ada") true (some "echo") state).1
orchestrate-ok_example =
    orchestrate-ok env asked (some "ada") true (some "echo") state plan
      (orchestrate env asked (some "ada") true (some "echo") state).1 planned

refused :
    orchestrate env asked (some "ada") true (some "echo") bare
    ≡ (err (key_error "echo"), (orchestrate env asked (some "ada") true (some "echo") bare).1)
unfolding orchestrate account_for finish route propose cap_tier decide log_decision cost_for
    resolve_model_pointer strip parse_provider dispatch get create register lookup insert
    record_usage charge account new_account snapshot view or_default tier_name echo_provider
refused = refl

orchestrate-err_example :
    let s' = (orchestrate env asked (some "ada") true (some "echo") bare).1 in
    Raised env asked (some "ada") true (some "echo") bare (key_error "echo") s'
    × (s'.decision_log ≡ [])
orchestrate-err_example =
    orchestrate-err env asked (some "ada") true (some "echo") bare (key_error "echo")
      (orchestrate env asked (some "ada") true (some "echo") bare).1 refused
