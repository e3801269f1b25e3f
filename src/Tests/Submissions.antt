-- ===== src/Tests/Submissions.antt =====
-- The facade of orchestrator/api.py at concrete submissions, over the SQLite store.
use routing.Prelude.{
  ℕ, ◌≡◌, ◌≢◌, refl, ◌⊎◌, String, eq_iff, Option, none, some, [], ◌∷◌, ◌++◌, arith,
}
use routing.Prelude.Dict.{lookup}
use routing.Prelude.Float.{ticks}
use routing.Prelude.Result.{ok, err}
use routing.Matrix.Model.{PyError, runtime_error, task_not_found, tenant_isolation_violation}
use routing.Orchestrator.Store.Tables.{TaskRow, Database, StoreConfig, new_row, find_task}
use routing.Orchestrator.Store.Sqlite.{register_idempotency, get_idempotency, task_owner}
use routing.Orchestrator.Store.Protocol.{Store, sqlite}
use routing.Orchestrator.Store.Protocol.SqliteLaws.{sqlite-IsStore}
use routing.Orchestrator.Workflow.Run.{RunArgs}
use routing.Orchestrator.Api.{
  ApiState, Submission, resolve_account, start_workflow, launch, claim, submit_for, submit,
  get_status,
}
use routing.Orchestrator.Api.Claims.{IsAdmitted, submit_new}
use routing.Orchestrator.Api.Polls.{get_status_cases, submit_claimed-other}
use routing.Tests.Routes.{asked}

abbrev cfg : StoreConfig ℕ
cfg = record { threshold = 100; window = 60 }

abbrev ops : Store ℕ (Database ℕ)
ops = sqlite cfg

abbrev state : ApiState ℕ (Database ℕ)
state = record {
  store = record {
    usage_charges = [];
    next_id = 1;
    idempotency = ("k1", "t1") ∷ [];
    tasks = new_row "t1" "ada" (some "k1") "c1" 10 ∷ [];
  };
  rate_limiter = none;
  started = [];
}

abbrev submission : String → String → String → Option PyError → Submission ℕ
submission account_id key id client_error = record {
  task = asked;
  account_id = some account_id;
  idempotency_key = some key;
  provider_name = none;
  simulate_failure = none;
  new_task_id = id;
  new_correlation_id = "c2";
  now = 20;
  monotonic = 20;
  client_error = client_error;
}

admits :
    (id key : String) (client_error : Option PyError) (s : ApiState ℕ (Database ℕ))
    → s.rate_limiter ≡ none
    → IsAdmitted (submission "bob" key id client_error) "bob" s
unfolding resolve_account
admits id key client_error s h = record { account = refl; admitted = rw h refl }

unclaimed : get_idempotency "k2" state.store ≡ none
unfolding get_idempotency lookup
unclaimed = refl

claimed : get_idempotency "k1" state.store ≡ some "t1"
unfolding get_idempotency lookup
claimed = refl

adas : task_owner "t1" state.store ≡ some "ada"
unfolding task_owner find_task
adas = refl

submit_new_example :
    let q = submission "bob" "k2" "t2" none in
    let (r, s') = submit ops q state in
    (r ≡ ok "t2")
    × (ops.task_owner "t2" s'.store ≡ some "bob")
    × (ops.get_idempotency "k2" s'.store ≡ some "t2")
    × ((w : RunArgs) × (s'.started ≡ [] ++ (w ∷ []))
        × (w.wf_id ≡ "t2")
        × (w.account_id ≡ "bob")
        × (w.task ≡ asked))
submit_new_example =
    submit_new (sqlite-IsStore cfg) (submission "bob" "k2" "t2" none) "bob" "k2" state
      (admits "t2" "k2" none state refl) refl unclaimed refl

limiter_kept :
    (submit ops
      (submission "bob" "k2" "t2" (some (runtime_error "unavailable")))
      state).1.rate_limiter
    ≡ none
unfolding submit submit_for claim launch start_workflow resolve_account register_idempotency lookup
limiter_kept = refl

bob : resolve_account (some "bob") ≡ ok "bob"
unfolding resolve_account
bob = refl

get_status_cases_example :
    ((ops.task_owner "t1" state.store ≡ some "bob")
      × ((r : TaskRow ℕ) × (get_status ops "t1" (some "bob") state ≡ ok r)
          × (r.account_id ≡ "bob")))
    ⊎ (((b : String) × (ops.task_owner "t1" state.store ≡ some b)
          × (◌≢◌ {A = String} "bob" b)
          × (get_status ops "t1" (some "bob") state ≡ err (tenant_isolation_violation "t1" "bob")))
        ⊎ ((ops.task_owner "t1" state.store ≡ none)
            × (get_status ops "t1" (some "bob") state ≡ err (task_not_found "t1" "bob"))))
get_status_cases_example = get_status_cases (sqlite-IsStore cfg) "t1" "bob" (some "bob") state bob

submit_claimed-other_example :
    let q = submission "bob" "k1" "t2" none in
    let (r, s') = submit ops q state in
    (r ≡ ok "t1")
    × (get_status ops "t1" (some "bob") s' ≡ err (tenant_isolation_violation "t1" "bob"))
submit_claimed-other_example =
    submit_claimed-other (sqlite-IsStore cfg) (submission "bob" "k1" "t2" none) "bob" "ada" "k1"
      "t1" state (admits "t2" "k1" none state refl) refl claimed adas
      (ground (arith, eq_iff "bob" "ada"))
