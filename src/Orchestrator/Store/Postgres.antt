-- ===== src/Orchestrator/Store/Postgres.antt =====
-- orchestrator/postgres_store.py: `PostgresAtomicStore`. Each method is one transaction; those of one
-- account are put in order by the lock on its row of `account_locks`.
pub mod Upsert
pub mod Agree
pub mod Answers
pub mod Refines
pub mod Connection
pub mod Faults
pub mod Setup
pub mod Chosen
pub mod Config
use routing.Prelude.{
  ℕ, String, ◌==◌, Bool, true, false, not, ◌||◌, Option, none, some, List, [], ◌∷◌, ◌++◌, length,
  keep, if◌then◌else◌,
}
use routing.Prelude.Dict.{lookup, insert}
use routing.Prelude.Float.{Float}
use routing.Orchestrator.Store.Tables.{
  Status, accepted, TaskRow, Database, StoreConfig, Reservation, other_account, set_amount,
  add_charge, find_task, with_status, update_task, new_row, owner_of, if_owned, prune, sum_account,
  latest,
}

pub record PgDatabase (F : Type 0) : Type 0 where
  pub db : Database F
  pub account_locks : List String

unfoldable pub has_lock : String → List String → Bool
has_lock a [] = false
has_lock a (b ∷ locks) = b == a || has_lock a locks

module _ {F : Type 0} where
  -- `_lock_account`: the row is made at the account's first transaction.
  unfoldable pub lock_account : String → PgDatabase F → PgDatabase F
  lock_account account_id pg =
      if has_lock account_id pg.account_locks
      then pg
      else record pg { account_locks = account_id ∷ pg.account_locks }

module _ {F : Type 0} ⦃f : Float F⦄ where
  -- `DELETE FROM usage_charges WHERE account_id = %s AND ts < %s`
  abbrev pub delete_stale : StoreConfig F → String → F → PgDatabase F → PgDatabase F
  delete_stale cfg account_id now pg =
      let db = pg.db in
      record pg { db = record db { usage_charges = prune cfg account_id now db.usage_charges } }

  unfoldable pub reserve :
      StoreConfig F → String → F → F → PgDatabase F → Reservation F × PgDatabase F
  reserve cfg account_id projected_cost now pg =
      let pruned = delete_stale cfg account_id now (lock_account account_id pg) in
      let balance = sum_account account_id pruned.db.usage_charges in
      let new_balance = f.add balance projected_cost in
      (
        record {
          account_id = account_id;
          degraded = f.le cfg.threshold new_balance;
          projected_cost = projected_cost;
          balance = new_balance;
        },
        record pruned { db = add_charge account_id projected_cost now pruned.db },
      )

  abbrev pub update_amount : Option ℕ → F → PgDatabase F → PgDatabase F
  update_amount none amount pg = pg
  update_amount (some i) amount pg =
      let db = pg.db in
      record pg { db = record db { usage_charges = set_amount i amount db.usage_charges } }

  unfoldable pub settle : StoreConfig F → String → F → F → F → PgDatabase F → F × PgDatabase F
  settle cfg account_id reserved_cost actual_cost now pg =
      let pruned = delete_stale cfg account_id now (lock_account account_id pg) in
      let row = latest account_id reserved_cost pruned.db.usage_charges in
      let settled = update_amount row actual_cost pruned in
      (sum_account account_id settled.db.usage_charges, settled)

  -- Here the deletion is committed, and no lock is taken.
  unfoldable pub balance : StoreConfig F → String → F → PgDatabase F → F × PgDatabase F
  balance cfg account_id now pg =
      let pruned = delete_stale cfg account_id now pg in
      (sum_account account_id pruned.db.usage_charges, pruned)

module _ {F : Type 0} where
  -- `INSERT ... ON CONFLICT DO NOTHING RETURNING`, and a `SELECT` where nothing was returned.
  unfoldable pub register_idempotency :
      String → String → PgDatabase F → (String × Bool) × PgDatabase F
  register_idempotency key task_id pg =
      let db = pg.db in
      elim (lookup key db.idempotency) [
        | none ↦ (
          (task_id, true),
          record pg { db = record db { idempotency = insert key task_id db.idempotency } },
        )
        | some existing ↦ ((existing, false), pg)
      ]

  unfoldable pub get_idempotency : String → PgDatabase F → Option String
  get_idempotency key pg = let db = pg.db in lookup key db.idempotency

  -- What `DO UPDATE SET` writes to a row that is there: five columns, and the status.
  abbrev pub overwrite : String → Option String → String → F → TaskRow F → TaskRow F
  overwrite account_id key correlation_id now r = record r {
    account_id = account_id;
    idempotency_key = key;
    correlation_id = correlation_id;
    status = accepted;
    created_at = now;
    updated_at = now;
  }

  abbrev pub upsert :
      Option (TaskRow F)
      → String
      → String
      → Option String
      → String
      → F
      → List (TaskRow F)
      → List (TaskRow F)
  upsert none task_id account_id key correlation_id now rows =
      rows ++ (new_row task_id account_id key correlation_id now ∷ [])
  upsert (some r) task_id account_id key correlation_id now rows =
      update_task task_id (overwrite account_id key correlation_id now) rows

  unfoldable pub create_task :
      String → String → Option String → String → F → PgDatabase F → PgDatabase F
  create_task task_id account_id key correlation_id now pg =
      let db = pg.db in
      record pg {
        db = record db {
          tasks =
              upsert (find_task task_id db.tasks) task_id account_id key correlation_id now
                db.tasks;
        };
      }

  unfoldable pub set_task_status :
      String
      → Status
      → Option String
      → Option String
      → Option String
      → Option F
      → F
      → PgDatabase F
      → PgDatabase F
  set_task_status task_id status error tier pointer cost now pg =
      let db = pg.db in
      record pg {
        db = record db {
          tasks = update_task task_id (with_status status error tier pointer cost now) db.tasks;
        };
      }

  unfoldable pub get_task : String → String → PgDatabase F → Option (TaskRow F)
  get_task task_id account_id pg =
      let db = pg.db in if_owned account_id (find_task task_id db.tasks)

  unfoldable pub task_owner : String → PgDatabase F → Option String
  task_owner task_id pg = let db = pg.db in owner_of (find_task task_id db.tasks)

  unfoldable pub count_tasks : PgDatabase F → ℕ
  count_tasks pg = let db = pg.db in length db.tasks

  unfoldable pub reset : Option String → PgDatabase F → PgDatabase F
  reset none pg =
      let db = pg.db in
      record {
        db = record db { usage_charges = []; idempotency = []; tasks = [] };
        account_locks = [];
      }
  reset (some account_id) pg =
      let db = pg.db in
      record pg {
        db = record db {
          usage_charges = keep (other_account account_id) db.usage_charges;
          tasks = keep (λ r. not (r.account_id == account_id)) db.tasks;
        };
      }
