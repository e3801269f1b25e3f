-- ===== src/Orchestrator/Store/Protocol/Methods.antt =====
-- The committing methods of a store (orchestrator/store.py and orchestrator/postgres_store.py) statement
-- by statement, against the operations that each is to apply.
use routing.Prelude.{String, Bool, Option}
use routing.Prelude.Float.{Float}
use routing.Orchestrator.Store.Tables.{Status, Database, StoreConfig, Reservation}
use routing.Orchestrator.Store.Sqlite
use routing.Orchestrator.Store.Sqlite.Session
use routing.Orchestrator.Store.Sqlite.Faults as SqliteFaults
use routing.Orchestrator.Store.Postgres.Faults as PostgresFaults
use routing.Orchestrator.Store.Postgres
use routing.Orchestrator.Store.Postgres.{PgDatabase}
use routing.Orchestrator.Store.Postgres.Connection
use routing.Orchestrator.Store.Protocol.{Store, sqlite, postgres}
use routing.Orchestrator.Store.Transaction.{Tx, Driver, Views, Atomic, IsDriver}

-- The methods of a store that commit. (`balance` of SQLite does not.)
pub record TxStore (F C : Type 0) : Type 0 where
  pub reserve_tx : String → F → F → Tx C (Reservation F)
  pub settle_tx : String → F → F → F → Tx C F
  pub register_idempotency_tx : String → String → Tx C (String × Bool)
  pub create_task_tx : String → String → Option String → String → F → Tx C (Unit {0})
  pub set_task_status_tx :
      String
      → Status
      → Option String
      → Option String
      → Option String
      → Option F
      → F
      → Tx C (Unit {0})
  pub reset_tx : Option String → Tx C (Unit {0})

-- Each method that returns has applied its operation to what was committed, with its answer, and has
-- committed it; each that raises has applied it whole or not at all; and no connection is kept.
pub record Implements {F D C : Type 0} (ops : Store F D) (reset : Option String → D → D)
    (txs : TxStore F C) (v : Views D C) : Type 0 where
  pub reserves :
      (a : String) (x now : F) (c : C) → Atomic v (ops.reserve a x now) c (txs.reserve_tx a x now c)
  pub settles :
      (a : String) (r x now : F) (c : C)
      → Atomic v (ops.settle a r x now) c (txs.settle_tx a r x now c)
  pub registers :
      (key id : String) (c : C)
      → Atomic v (ops.register_idempotency key id) c (txs.register_idempotency_tx key id c)
  pub creates :
      (id a : String) (key : Option String) (corr : String) (now : F) (c : C)
      → Atomic v
          (λ d. (tt, ops.create_task id a key corr now d))
          c
          (txs.create_task_tx id a key corr now c)
  pub marks :
      (id : String) (st : Status) (e t p : Option String) (x : Option F) (now : F) (c : C)
      → Atomic v
          (λ d. (tt, ops.set_task_status id st e t p x now d))
          c
          (txs.set_task_status_tx id st e t p x now c)
  pub resets :
      (who : Option String) (c : C) → Atomic v (λ d. (tt, reset who d)) c (txs.reset_tx who c)

module _ {F C : Type 0} ⦃f : Float F⦄ where
  abbrev pub sqlite_tx : Driver (Database F) C → StoreConfig F → TxStore F C
  sqlite_tx dr cfg = record {
    reserve_tx = Session.reserve_tx dr cfg;
    settle_tx = Session.settle_tx dr cfg;
    register_idempotency_tx = Session.register_idempotency_tx dr;
    create_task_tx = Session.create_task_tx dr;
    set_task_status_tx = Session.set_task_status_tx dr;
    reset_tx = Session.reset_tx dr;
  }

  abbrev pub postgres_tx : Driver (PgDatabase F) C → StoreConfig F → TxStore F C
  postgres_tx dr cfg = record {
    reserve_tx = Connection.reserve_tx dr cfg;
    settle_tx = Connection.settle_tx dr cfg;
    register_idempotency_tx = Connection.register_idempotency_tx dr;
    create_task_tx = Connection.create_task_tx dr;
    set_task_status_tx = Connection.set_task_status_tx dr;
    reset_tx = Connection.reset_tx dr;
  }

  -- Over a driver that does what is documented, in which any statement, any commit and any rollback
  -- may raise, each committing method of the SQLite store (reserve, settle, register_idempotency,
  -- create_task, set_task_status and reset) that returns has committed its operation whole
  -- and answers as the operation does; one that raises has committed it whole or not at all; and its
  -- connection is closed in either case.
  pub sqlite_tx-Implements :
      (dr : Driver (Database F) C) (v : Views (Database F) C) (cfg : StoreConfig F)
      → IsDriver dr v
      → Implements (sqlite cfg) Sqlite.reset (sqlite_tx dr cfg) v
  sqlite_tx-Implements dr v cfg laws = record {
    reserves = SqliteFaults.reserve-Atomic dr v laws cfg;
    settles = SqliteFaults.settle-Atomic dr v laws cfg;
    registers = SqliteFaults.register-Atomic dr v laws;
    creates = SqliteFaults.create-Atomic dr v laws;
    marks = SqliteFaults.set_status-Atomic dr v laws;
    resets = SqliteFaults.reset-Atomic dr v laws;
  }

  -- Over a pool and a driver that do what is documented, in which any statement, any commit, any
  -- rollback and any exit may raise, each committing method of the Postgres store (reserve, settle,
  -- register_idempotency, create_task, set_task_status, reset and balance, which commits its pruning)
  -- that returns has committed its operation whole and answers as the operation does; one that raises
  -- has committed it whole or not at all; and the pool has its connection back in either case.
  pub postgres_tx-Implements :
      (dr : Driver (PgDatabase F) C) (v : Views (PgDatabase F) C) (cfg : StoreConfig F)
      → IsDriver dr v
      → Implements (postgres cfg) Postgres.reset (postgres_tx dr cfg) v
        × ((a : String) (now : F) (c : C)
            → Atomic v (Postgres.balance cfg a now) c (Connection.balance_tx dr cfg a now c))
  postgres_tx-Implements dr v cfg laws = (
    record {
      reserves = PostgresFaults.reserve-Atomic dr v laws cfg;
      settles = PostgresFaults.settle-Atomic dr v laws cfg;
      registers = PostgresFaults.register-Atomic dr v laws;
      creates = PostgresFaults.create-Atomic dr v laws;
      marks = PostgresFaults.set_status-Atomic dr v laws;
      resets = PostgresFaults.reset-Atomic dr v laws;
    },
    PostgresFaults.balance-Atomic dr v laws cfg,
  )
