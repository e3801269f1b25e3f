-- ===== src/Tests/Lifecycles.antt =====
-- A task of orchestrator/api.py and orchestrator/workflow.py from its submission to the poll of it, at
-- a concrete submission over the SQLite store.
use routing.Prelude.{ℕ, ◌≡◌, ◌≢◌, String, refl, none, some, [], ◌∷◌}
use routing.Prelude.Dict.{lookup, insert}
use routing.Prelude.Float.{ticks}
use routing.Prelude.Result.{ok}
use routing.Prelude.Text.{strip}
use routing.Matrix.Model.{cost_for}
use routing.Matrix.Providers.{parse_provider, dispatch, get, create, register}
use routing.Matrix.Route.{propose, cap_tier, decide, log_decision, route}
use routing.Matrix.Tiers.{resolve_model_pointer}
use routing.Orchestrator.Costing.{project_cost}
use routing.Orchestrator.Store.Tables.{Database, TaskRow, add_charge, prune, sum_account}
use routing.Orchestrator.Store.Sqlite.{set_task_status, reserve, prune_db}
use routing.Orchestrator.Store.Protocol.SqliteLaws.{sqlite-IsStore}
use routing.Orchestrator.Workflow.Exec.{continue, ◌>>=◌}
use routing.Orchestrator.Workflow.World.{World, try_once, try_again, activity}
use routing.Orchestrator.Workflow.Activities.{
  check_rate_limit, reserve_usage, circuit_breaker_effective, route_task, settle_usage,
  circuit_breaker_record, dispatch_task, mark_status, log_info,
}
use routing.Orchestrator.Workflow.Run.{RunArgs, finish_steps, steps, catch, run}
use routing.Orchestrator.Workflow.Outcome.Ending.{IsCompleted}
use routing.Tests.Routes.{env, asked}
use routing.Tests.Routes
use routing.Orchestrator.Store.Sqlite.{get_idempotency, register_idempotency, create_task}
use routing.Orchestrator.Api.{
  ApiState, Submission, resolve_account, start_workflow, launch, claim, submit_for, submit,
  get_status,
}
use routing.Orchestrator.Api.Claims.{IsAdmitted}
use routing.Orchestrator.Lifecycle.{submit-run}
use routing.Orchestrator.Lifecycle.Again.{submit-again}
use routing.Orchestrator.Workflow.Others.{Actions, nothing, then_one, marks}
use routing.Orchestrator.Workflow.World.{runs}
use routing.Orchestrator.Store.Tables.{completed}
use routing.Prelude.{arith, eq_iff}
use routing.Orchestrator.Workflow.Others.Runs.{run-Actions}
use routing.Orchestrator.Lifecycle.Submits.{submit-Actions}
use routing.Orchestrator.Lifecycle.Completes.{submit-completes}
use routing.Orchestrator.Workflow.Run.{TaskResult}
use routing.Matrix.Providers.{echo_provider}
use routing.Tests.Lives.{flaky, flaky_others, patient, configured, served}
use routing.Tests.Runs.{cfg, ops, rt, calm, start, result}

abbrev api : ApiState ℕ (Database ℕ)
api = record {
  store = record { usage_charges = []; next_id = 1; idempotency = []; tasks = [] };
  rate_limiter = none;
  started = [];
}

abbrev submission : Submission ℕ
submission = record {
  task = asked;
  account_id = some "ada";
  idempotency_key = some "k1";
  provider_name = some "echo";
  simulate_failure = none;
  new_task_id = "t1";
  new_correlation_id = "c1";
  now = 90;
  monotonic = 90;
  client_error = none;
}

abbrev args : RunArgs
args = record {
  wf_id = "t1";
  task = asked;
  account_id = "ada";
  idempotency_key = some "k1";
  correlation_id = "c1";
  provider_name = some "echo";
  simulate_failure = none;
}

abbrev submitted : World ℕ (Database ℕ)
submitted = record start { store = (submit ops submission api).1.store }

admitted : IsAdmitted submission "ada" api
unfolding resolve_account
admitted = record { account = refl; admitted = refl }

unclaimed : get_idempotency "k1" api.store ≡ none
unfolding get_idempotency lookup
unclaimed = refl

starts : (submit ops submission api).1.started ≡ args ∷ []
unfolding submit submit_for claim launch start_workflow resolve_account register_idempotency lookup
starts = refl

-- Between the submission and the run, another workflow writes the row of its own task.
abbrev world : World ℕ (Database ℕ)
world =
    (mark_status rt "c2" "t2" completed none none none none
      (record { fate = runs; now = 95; monotonic = 95 }) submitted).1

between : Actions rt "t1" submitted world
between = then_one nothing (
    marks "c2" "t2" completed none none none none (record { fate = runs; now = 95; monotonic = 95 })
      submitted λ e. absurd (ground (arith, eq_iff "t2" "t1")))

returns : run rt args world ≡ (ok result, (run rt args world).1)
unfolding submit submit_for claim launch start_workflow resolve_account register_idempotency
    create_task run catch steps finish_steps ◌>>=◌ continue activity try_again try_once
    check_rate_limit reserve_usage circuit_breaker_effective route_task settle_usage
    circuit_breaker_record dispatch_task mark_status log_info route propose cap_tier decide
    log_decision cost_for resolve_model_pointer strip parse_provider dispatch get create register
    echo_provider lookup insert project_cost reserve prune_db prune add_charge sum_account
    set_task_status
returns = refl

submit-run_example :
    (r : TaskRow ℕ) × (get_status ops "t1"
        (some "ada")
        (record api { store = (run rt args world).1.store })
      ≡ ok r)
    × IsCompleted Routes.held_back r
submit-run_example =
    submit-run rt (sqlite-IsStore cfg) submission "ada" "k1" api args submitted world
      (run rt args world).1 (run rt args world).1 result admitted refl unclaimed refl starts refl
      between (calm "t1") returns nothing

-- A later submission of another account with the same key.
abbrev second : Submission ℕ
second = record submission { account_id = some "bob"; new_task_id = "t2"; now = 200 }

abbrev later : ApiState ℕ (Database ℕ)
later = record api { store = world.store; started = args ∷ [] }

second-IsAdmitted : IsAdmitted second "bob" later
unfolding resolve_account
second-IsAdmitted = record { account = refl; admitted = refl }

submit-again_example :
    ((submit ops second later).0 ≡ ok "t1")
    × ((submit ops second later).1.store ≡ world.store)
    × ((submit ops second later).1.started ≡ args ∷ [])
submit-again_example =
    submit-again rt (sqlite-IsStore cfg) submission second "ada" "bob" "k1" "t1" api later submitted
      world admitted refl unclaimed refl between refl refl second-IsAdmitted

other_task : ◌≢◌ {A = String} "t1" "t9"
other_task = λ e. absurd (ground (arith, eq_iff "t1" "t9"))

run-Actions_example : Actions rt "t9" submitted (run rt args submitted).1
run-Actions_example = run-Actions rt "t9" (calm "t9") submitted args other_task

submit-Actions_example : Actions rt "t9" (record start { store = api.store }) submitted
submit-Actions_example = submit-Actions rt "t9" start submission api other_task

submit-completes_example :
    (res : TaskResult ℕ) × (w' : World ℕ (Database ℕ)) × (run flaky args submitted ≡ (ok res, w'))
    × ((r : TaskRow ℕ) × (get_status ops "t1" (some "ada") (record api { store = w'.store }) ≡ ok r)
        × IsCompleted res.decision r)
submit-completes_example =
    submit-completes flaky (sqlite-IsStore cfg) submission "ada" "k1" api args submitted submitted
      flaky_others patient configured refl admitted refl unclaimed refl starts refl nothing served
