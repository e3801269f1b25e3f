-- ===== src/Orchestrator/Store/Protocol.antt =====
-- The protocols `UsageStore`, `IdempotencyStore` and `TaskStore` of orchestrator/store.py, as one
-- record of operations on a store's state.
pub mod Laws
pub mod SqliteLaws
pub mod PostgresLaws
pub mod Methods
use routing.Prelude.{ℕ, String, Bool, Option}
use routing.Prelude.Float.{Float}
use routing.Orchestrator.Store.Tables.{Status, TaskRow, Database, StoreConfig, Reservation}
use routing.Orchestrator.Store.Sqlite
use routing.Orchestrator.Store.Postgres
use routing.Orchestrator.Store.Postgres.{PgDatabase}

pub record Store (F S : Type 0) : Type 0 where
  pub reserve : String → F → F → S → Reservation F × S
  pub settle : String → F → F → F → S → F × S
  pub balance : String → F → S → F × S
  pub register_idempotency : String → String → S → (String × Bool) × S
  pub get_idempotency : String → S → Option String
  pub create_task : String → String → Option String → String → F → S → S
  pub set_task_status :
      String → Status → Option String → Option String → Option String → Option F → F → S → S
  pub get_task : String → String → S → Option (TaskRow F)
  pub task_owner : String → S → Option String
  pub count_tasks : S → ℕ

module _ {F : Type 0} ⦃f : Float F⦄ where
  abbrev pub sqlite : StoreConfig F → Store F (Database F)
  sqlite cfg = record {
    reserve = Sqlite.reserve cfg;
    settle = Sqlite.settle cfg;
    balance = Sqlite.balance cfg;
    register_idempotency = Sqlite.register_idempotency;
    get_idempotency = Sqlite.get_idempotency;
    create_task = Sqlite.create_task;
    set_task_status = Sqlite.set_task_status;
    get_task = Sqlite.get_task;
    task_owner = Sqlite.task_owner;
    count_tasks = Sqlite.count_tasks;
  }

  abbrev pub postgres : StoreConfig F → Store F (PgDatabase F)
  postgres cfg = record {
    reserve = Postgres.reserve cfg;
    settle = Postgres.settle cfg;
    balance = Postgres.balance cfg;
    register_idempotency = Postgres.register_idempotency;
    get_idempotency = Postgres.get_idempotency;
    create_task = Postgres.create_task;
    set_task_status = Postgres.set_task_status;
    get_task = Postgres.get_task;
    task_owner = Postgres.task_owner;
    count_tasks = Postgres.count_tasks;
  }
