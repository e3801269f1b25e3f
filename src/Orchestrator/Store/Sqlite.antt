-- ===== src/Orchestrator/Store/Sqlite.antt =====
-- orchestrator/store.py: `SqliteAtomicStore`. Each method is one transaction. `now` is what
-- `time.time()` returns in it.
pub mod Reserve
pub mod Settle
pub mod Balances
pub mod Invariant
pub mod Rows
pub mod Admission
pub mod Session
pub mod Faults
use routing.Prelude.{
  ℕ, String, ◌==◌, Bool, true, false, not, Option, none, some, [], ◌∷◌, ◌++◌, length, keep,
}
use routing.Prelude.Dict.{lookup, insert}
use routing.Prelude.Float.{Float}
use routing.Orchestrator.Store.Tables.{
  Status, TaskRow, Database, StoreConfig, Reservation, other_account, set_amount, add_charge,
  find_task, with_status, update_task, new_row, owner_of, if_owned, prune, sum_account, latest,
}

module _ {F : Type 0} where
  unfoldable pub empty_db : Database F
  empty_db = record { usage_charges = []; next_id = 1; idempotency = []; tasks = [] }

module _ {F : Type 0} ⦃f : Float F⦄ where
  -- `_prune`
  unfoldable pub prune_db : StoreConfig F → String → F → Database F → Database F
  prune_db cfg account_id now db = record db {
    usage_charges = prune cfg account_id now db.usage_charges;
  }

  unfoldable pub reserve : StoreConfig F → String → F → F → Database F → Reservation F × Database F
  reserve cfg account_id projected_cost now db =
      let pruned = prune_db cfg account_id now db in
      let new_balance = f.add (sum_account account_id pruned.usage_charges) projected_cost in
      (
        record {
          account_id = account_id;
          degraded = f.le cfg.threshold new_balance;
          projected_cost = projected_cost;
          balance = new_balance;
        },
        add_charge account_id projected_cost now pruned,
      )

  abbrev pub revalue : Option ℕ → F → Database F → Database F
  revalue none amount db = db
  revalue (some i) amount db = record db { usage_charges = set_amount i amount db.usage_charges }

  unfoldable pub settle : StoreConfig F → String → F → F → F → Database F → F × Database F
  settle cfg account_id reserved_cost actual_cost now db =
      let pruned = prune_db cfg account_id now db in
      let row = latest account_id reserved_cost pruned.usage_charges in
      let settled = revalue row actual_cost pruned in
      (sum_account account_id settled.usage_charges, settled)

  -- The transaction that the `DELETE` opens is not committed, so it is rolled back when the
  -- connection is closed: the database stays as it was.
  unfoldable pub balance : StoreConfig F → String → F → Database F → F × Database F
  balance cfg account_id now db =
      let pruned = prune_db cfg account_id now db in
      (sum_account account_id pruned.usage_charges, db)

module _ {F : Type 0} where
  unfoldable pub register_idempotency : String → String → Database F → (String × Bool) × Database F
  register_idempotency key task_id db = elim (lookup key db.idempotency) [
    | some existing ↦ ((existing, false), db)
    | none ↦ ((task_id, true), record db { idempotency = insert key task_id db.idempotency })
  ]

  unfoldable pub get_idempotency : String → Database F → Option String
  get_idempotency key db = lookup key db.idempotency

  -- `INSERT OR REPLACE`: a row with the same key is deleted first.
  unfoldable pub create_task :
      String → String → Option String → String → F → Database F → Database F
  create_task task_id account_id key correlation_id now db = record db {
    tasks =
        keep (λ r. not (r.task_id == task_id)) db.tasks
        ++ (new_row task_id account_id key correlation_id now ∷ []);
  }

  unfoldable pub set_task_status :
      String
      → Status
      → Option String
      → Option String
      → Option String
      → Option F
      → F
      → Database F
      → Database F
  set_task_status task_id status error tier pointer cost now db = record db {
    tasks = update_task task_id (with_status status error tier pointer cost now) db.tasks;
  }

  unfoldable pub get_task : String → String → Database F → Option (TaskRow F)
  get_task task_id account_id db = if_owned account_id (find_task task_id db.tasks)

  unfoldable pub task_owner : String → Database F → Option String
  task_owner task_id db = owner_of (find_task task_id db.tasks)

  unfoldable pub count_tasks : Database F → ℕ
  count_tasks db = length db.tasks

  unfoldable pub reset : Option String → Database F → Database F
  reset none db = record db { usage_charges = []; idempotency = []; tasks = [] }
  reset (some account_id) db = record db {
    usage_charges = keep (other_account account_id) db.usage_charges;
    tasks = keep (λ r. not (r.account_id == account_id)) db.tasks;
  }
