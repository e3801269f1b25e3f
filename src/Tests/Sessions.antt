-- ===== src/Tests/Sessions.antt =====
-- The methods of the stores (orchestrator/store.py, orchestrator/postgres_store.py) over a connection
-- that raises where it is told to.
use routing.Prelude.{
  ℕ, String, suc, ◌-◌, ◌≡◌, refl, inl, Option, none, some, List, [], ◌∷◌, true, ◌==◌, if◌then◌else◌,
}
use routing.Prelude.Float.{ticks}
use routing.Prelude.Result.{Result, ok, err}
use routing.Matrix.Model.{PyError, runtime_error, value_error}
use routing.Orchestrator.Store.Tables.{Database}
use routing.Orchestrator.Store.Sqlite
use routing.Orchestrator.Store.Postgres
use routing.Orchestrator.Store.Postgres.Connection
use routing.Orchestrator.Store.Postgres.{PgDatabase}
use routing.Orchestrator.Store.Sqlite.{empty_db}
use routing.Orchestrator.Store.Transaction.{
  Driver, Views, Atomic, Stated, Opened, Committed, IsDriver,
}
use routing.Orchestrator.Store.Protocol.{sqlite, postgres}
use routing.Orchestrator.Store.Protocol.Methods.{
  Implements, sqlite_tx, postgres_tx, sqlite_tx-Implements, postgres_tx-Implements,
}
use routing.Orchestrator.Store.Postgres.Config.{
  pos, Parsers, Overrides, PgStore, require_psycopg, checked_size, choose, init, settings, from_env,
}
use routing.Orchestrator.Store.Postgres.Chosen.{IsConfigured, from_env-IsConfigured}
use routing.Orchestrator.Store.Sqlite.Session.{reserve_tx, in_session}
use routing.Orchestrator.Store.Transaction.{◌>>=◌, next}
use routing.Orchestrator.Store.Tables.{prune, sum_account}
use routing.Orchestrator.Store.Sqlite.{prune_db}
use routing.Matrix.Tiers.{Environ}
use routing.Tests.Runs.{cfg}

-- `faults` says for each call to come whether it raises.
record Conn (D : Type 0) : Type 0 where
  committed : D
  working : D
  in_use : ℕ
  faults : List (Option PyError)

module _ {D : Type 0} where
  -- What the next call does, and the calls after it.
  abbrev calls :
      {A : Type 0}
      → A
      → (Conn D → Conn D)
      → List (Option PyError)
      → Conn D
      → Result PyError A × Conn D
  calls a change [] c = (ok a, change c)
  calls a change (none ∷ rest) c = (ok a, change (record c { faults = rest }))
  calls a change (some e ∷ rest) c = (err e, record c { faults = rest })

  abbrev scripted : Driver D (Conn D)
  scripted = record {
    open_conn =
        λ c. calls tt (λ t. record t { working = t.committed; in_use = suc t.in_use }) c.faults c;
    close_conn = λ raised c. (ok tt, record c { working = c.committed; in_use = c.in_use - 1 });
    execute = λ F c. calls (F c.working).0 (λ t. record t { working = (F t.working).1 }) c.faults c;
    commit = λ c. calls tt (λ t. record t { committed = t.working }) c.faults c;
    rollback = λ c. calls tt (λ t. record t { working = t.committed }) c.faults c;
  }

  abbrev views : Views D (Conn D)
  views = record { committed = λ c. c.committed; working = λ c. c.working; in_use = λ c. c.in_use }

  -- A change that the law of a call describes.
  called-Stated :
      {A : Type 0} (F : D → A × D) (faults : List (Option PyError)) (c : Conn D)
      → Stated views F c
          (calls (F c.working).0 (λ t. record t { working = (F t.working).1 }) faults c)
  called-Stated F [] c = (refl, refl, refl)
  called-Stated F (none ∷ rest) c = (refl, refl, refl)
  called-Stated F (some e ∷ rest) c = (refl, refl)

  called-Opened :
      (faults : List (Option PyError)) (c : Conn D)
      → Opened views c
          (calls tt (λ t. record t { working = t.committed; in_use = suc t.in_use }) faults c)
  called-Opened [] c = (refl, refl, refl)
  called-Opened (none ∷ rest) c = (refl, refl, refl)
  called-Opened (some e ∷ rest) c = (refl, refl)

  called-Committed :
      (faults : List (Option PyError)) (c : Conn D)
      → Committed views c (calls tt (λ t. record t { committed = t.working }) faults c)
  called-Committed [] c = (refl, refl, refl)
  called-Committed (none ∷ rest) c = (refl, refl, refl)
  called-Committed (some e ∷ rest) c = (inl refl, refl)

  undone :
      (faults : List (Option PyError)) (c : Conn D)
      → let q = calls tt (λ (t : Conn D). record t { working = t.committed }) faults c in
        (q.1.committed ≡ c.committed) × (q.1.in_use ≡ c.in_use)
  undone [] c = (refl, refl)
  undone (none ∷ rest) c = (refl, refl)
  undone (some e ∷ rest) c = (refl, refl)

  scripted-IsDriver : IsDriver {D = D} scripted views
  scripted-IsDriver = record {
    open_law = λ c. called-Opened c.faults c;
    execute_law = λ F c. called-Stated F c.faults c;
    commit_law = λ c. called-Committed c.faults c;
    rollback_law = λ c. undone c.faults c;
    close_failed = λ c. (refl, refl);
    close_committed = λ c same. (refl, refl);
  }

sqlite_tx-Implements_example : Implements (sqlite cfg) Sqlite.reset (sqlite_tx scripted cfg) views
sqlite_tx-Implements_example = sqlite_tx-Implements scripted views cfg scripted-IsDriver

postgres_tx-Implements_example :
    Implements (postgres cfg) Postgres.reset (postgres_tx scripted cfg) views
    × ((a : String) (now : ℕ) (c : Conn (PgDatabase ℕ))
        → Atomic views (Postgres.balance cfg a now) c (Connection.balance_tx scripted cfg a now c))
postgres_tx-Implements_example = postgres_tx-Implements scripted views cfg scripted-IsDriver

-- The settings of an environment that sets the DSN and the bound of the pool.
abbrev pg_env : Environ
pg_env name =
    if name == "DATABASE_URL"
    then some "postgresql://db"
    else if name == "STORE_PG_MAX_CONNECTIONS"
    then some "4"
    else none

abbrev parsers : Parsers ℕ
parsers = record {
  float_of = λ text. err (value_error text);
  int_of = λ text. if text == "4" then ok (pos 4) else err (value_error text);
}

abbrev given : Overrides ℕ
given = record { degraded_threshold = some 20; usage_window_seconds = none; max_connections = none }

abbrev pg_store : PgStore ℕ
pg_store = record {
  dsn = "postgresql://db";
  config = record { threshold = 20; window = 36_000_000 };
  max_connections = 4;
}

from_env_returns : from_env parsers pg_env true none given ≡ ok pg_store
unfolding from_env settings choose init require_psycopg checked_size
from_env_returns = refl

from_env-IsConfigured_example : IsConfigured parsers pg_env given none pg_store
from_env-IsConfigured_example =
    from_env-IsConfigured parsers pg_env given true none pg_store from_env_returns

-- A reservation whose insertion raises, after four calls that went well: nothing is reserved, and the
-- connection is closed.
abbrev failing : Conn (Database ℕ)
failing = record {
  committed = empty_db;
  working = empty_db;
  in_use = 0;
  faults = none ∷ none ∷ none ∷ none ∷ some (runtime_error "disk I/O error") ∷ [];
}

reservation_fails :
    let (r, c) = reserve_tx scripted cfg "ada" 5 100 failing in
    (r ≡ err (runtime_error "disk I/O error")) × (c.committed ≡ empty_db) × (c.in_use ≡ 0)
unfolding reserve_tx in_session ◌>>=◌ next empty_db prune_db prune sum_account
reservation_fails = (refl, refl, refl)
