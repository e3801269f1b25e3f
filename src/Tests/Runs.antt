-- ===== src/Tests/Runs.antt =====
-- Runs of the workflow of orchestrator/workflow.py, over the SQLite store, in which all attempts run.
use routing.Prelude.{◌≢◌, true, Option, ℕ, ◌≡◌, refl, ◌+◌, ◌≤◌, String, Option, none, some, [], ◌∷◌}
use routing.Prelude.Dict.{lookup, insert}
use routing.Prelude.Float.{ticks}
use routing.Prelude.Result.{ok, err}
use routing.Prelude.Text.{strip}
use routing.Matrix.Model.{cost_for}
use routing.Matrix.Classifier.{join}
use routing.Matrix.Providers.{
  default_registry, parse_provider, dispatch, get, create, register, echo_provider,
}
use routing.Matrix.Route.{propose, cap_tier, decide, log_decision, route}
use routing.Matrix.Tiers.{resolve_model_pointer}
use routing.Orchestrator.Costing.{project_cost}
use routing.Orchestrator.Store.Tables.{
  Database, StoreConfig, TaskRow, completed, new_row, add_charge, find_task, prune, sum_account,
}
use routing.Orchestrator.Store.Sqlite.{get_task, set_task_status, reserve, prune_db}
use routing.Orchestrator.Store.Protocol.{Store, sqlite}
use routing.Orchestrator.Store.Protocol.SqliteLaws.{sqlite-IsStore}
use routing.Orchestrator.Workflow.Exec.{Exc, raised, caused, parts, continue, ◌>>=◌}
use routing.Orchestrator.Workflow.World.{runs, World, Runtime, try_once, try_again, activity}
use routing.Orchestrator.Workflow.Activities.{
  check_rate_limit, reserve_usage, circuit_breaker_effective, route_task, settle_usage,
  circuit_breaker_record, dispatch_task, mark_status, log_info,
}
use routing.Orchestrator.Workflow.Run.{
  RunArgs, TaskResult, finish_steps, steps, dead_letter, catch, run,
}
use routing.Orchestrator.Workflow.Bound.{run_attempts}
use routing.Orchestrator.Workflow.Outcome.Ending.{IsCompleted, run_completes}
use routing.Orchestrator.Workflow.Yields.Tripped.{run_tripped}
use routing.Orchestrator.Workflow.Blind.{set_limiter, AreHeedless}
use routing.Orchestrator.Workflow.Others.{AreOthers, nothing, then_one, reserves}
use routing.Orchestrator.Workflow.Blind.Limiter.{run_unlimited}
use routing.Orchestrator.RateLimit.{TokenBucketLimiter}
use routing.Matrix.Model.{frontier}
use routing.Orchestrator.Breaker.{effective_degraded, record_cost, frontier_allowed}
use routing.Orchestrator.Workflow.Outcome.Failure.{DeadLettered, run_fails}
use routing.Tests.Routes.{env, asked}
use routing.Tests.Routes

abbrev pub cfg : StoreConfig ℕ
cfg = record { threshold = 90; window = 60 }

abbrev pub ops : Store ℕ (Database ℕ)
ops = sqlite cfg

-- What becomes of the attempts, when nobody else uses the state.
abbrev pub alone : Runtime ℕ (Database ℕ)
alone = record {
  env = env;
  ops = ops;
  attempts = λ n. record { fate = runs; now = 100; monotonic = 100 };
  others = λ n w. w;
  failure = λ e. raised "ActivityError" "activity failed";
  timed_out = raised "ActivityError" "timed out";
}

-- Before each attempt, the workflow of another task reserves for another account.
abbrev pub rt : Runtime ℕ (Database ℕ)
rt = record alone {
  others = λ n w.
      (reserve_usage alone "c9" "bob" 5 (record { fate = runs; now = 100; monotonic = 100 }) w).1;
}

pub calm : (id : String) → AreOthers rt id
unfolding reserve_usage
calm id = record {
  at = λ n w.
      then_one nothing
        (reserves "c9" "bob" 5 (record { fate = runs; now = 100; monotonic = 100 }) w);
}

heedless : AreHeedless rt
unfolding reserve_usage log_info
heedless = record { at = λ n w l. (l, refl) }

abbrev pub args : Option String → RunArgs
args simulate_failure = record {
  wf_id = "t1";
  task = asked;
  account_id = "ada";
  idempotency_key = none;
  correlation_id = "c1";
  provider_name = some "echo";
  simulate_failure = simulate_failure;
}

abbrev pub start : World ℕ (Database ℕ)
start = record {
  store = record {
    usage_charges = [];
    next_id = 1;
    idempotency = [];
    tasks = new_row "t1" "ada" none "c1" 90 ∷ [];
  };
  circuit_breaker = none;
  rate_limiter = none;
  registry = default_registry;
  route_log = [];
  log = [];
  tick = 0;
}

run_attempts_example : (run rt (args none) start).1.tick ≤ 0 + 30
run_attempts_example = run_attempts rt (args none) start

pub there : get_task "t1" "ada" start.store ≡ some (new_row "t1" "ada" none "c1" 90)
unfolding get_task find_task
there = refl

-- The projected cost reaches the threshold, so that the frontier is refused.
abbrev pub result : TaskResult ℕ
result = record {
  task_id = "t1";
  account_id = "ada";
  decision = Routes.held_back;
  correlation_id = "c1";
  status = completed;
}

ran : run rt (args none) start ≡ (ok result, (run rt (args none) start).1)
unfolding run catch steps finish_steps ◌>>=◌ continue activity try_again try_once check_rate_limit
    reserve_usage circuit_breaker_effective route_task settle_usage circuit_breaker_record
    dispatch_task mark_status log_info route propose cap_tier decide log_decision cost_for
    resolve_model_pointer strip parse_provider dispatch get create register echo_provider lookup
    insert project_cost reserve prune_db prune add_charge sum_account set_task_status
ran = refl

run_completes_example :
    (r : TaskRow ℕ) × (get_task "t1" "ada" (run rt (args none) start).1.store ≡ some r)
    × IsCompleted Routes.held_back r
run_completes_example =
    run_completes rt (sqlite-IsStore cfg) (args none) (calm "t1") start (run rt (args none) start).1
      result (new_row "t1" "ada" none "c1" 90, there) ran

abbrev final : Exc
final =
    caused "ApplicationError" "Task t1 failed: ActivityError: activity failed"
      (raised "ActivityError" "activity failed")

raises :
    run rt (args (some "dispatch")) start ≡ (err final, (run rt (args (some "dispatch")) start).1)
unfolding run catch dead_letter steps finish_steps ◌>>=◌ continue activity try_again try_once
    check_rate_limit reserve_usage circuit_breaker_effective route_task settle_usage
    circuit_breaker_record dispatch_task mark_status log_info route propose cap_tier decide
    log_decision cost_for resolve_model_pointer strip parse_provider dispatch get create register
    echo_provider lookup insert project_cost reserve prune_db prune sum_account join parts
raises = refl

run_fails_example :
    (exc : Exc) × (t : World ℕ (Database ℕ)) × (steps rt (args (some "dispatch")) start
      ≡ (err exc, t))
    × DeadLettered rt
        (sqlite-IsStore cfg)
        (args (some "dispatch"))
        (calm "t1")
        exc
        final
        t
        (run rt (args (some "dispatch")) start).1
run_fails_example =
    run_fails rt (sqlite-IsStore cfg) (args (some "dispatch")) (calm "t1") start
      (run rt (args (some "dispatch")) start).1 final (new_row "t1" "ada" none "c1" 90, there)
      raises

abbrev tripped : World ℕ (Database ℕ)
tripped = record start {
  circuit_breaker = some (record { rate_threshold = 5; aggregate_cost = 9; tripped = true });
}

ran_tripped : run rt (args none) tripped ≡ (ok result, (run rt (args none) tripped).1)
unfolding run catch steps finish_steps ◌>>=◌ continue activity try_again try_once check_rate_limit
    reserve_usage circuit_breaker_effective route_task settle_usage circuit_breaker_record
    dispatch_task mark_status log_info route propose cap_tier decide log_decision cost_for
    resolve_model_pointer strip parse_provider dispatch get create register echo_provider lookup
    insert project_cost reserve prune_db prune add_charge sum_account set_task_status
    effective_degraded record_cost frontier_allowed
ran_tripped = refl

run_tripped_example : Routes.held_back.tier ≢ frontier
run_tripped_example =
    run_tripped rt "t1" (calm "t1") (args none) tripped (run rt (args none) tripped).1 result
      (record { rate_threshold = 5; aggregate_cost = 9; tripped = true }, refl, refl) ran_tripped

-- A limiter that has no token for the account.
abbrev empty : Option (TokenBucketLimiter ℕ)
empty =
    some (record {
      rate = 1;
      capacity = 10_000;
      buckets = ("ada", 0) ∷ [];
      updated = ("ada", 100) ∷ [];
    })

run_unlimited_example :
    let (r, t) = run rt (args none) (set_limiter empty start) in
    let (r', t') = run rt (args none) start in (r ≡ r') × (t ≡ set_limiter t.rate_limiter t')
run_unlimited_example = run_unlimited rt heedless (args none) start empty
