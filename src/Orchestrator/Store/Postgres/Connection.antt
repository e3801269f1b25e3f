-- ===== src/Orchestrator/Store/Postgres/Connection.antt =====
-- The methods of `PostgresAtomicStore` (orchestrator/postgres_store.py) that write, statement by
-- statement, each on one connection of the pool.
use routing.Prelude.{ℕ, String, ◌==◌, Bool, true, false, not, Option, none, some, [], keep}
use routing.Prelude.Dict.{lookup, insert}
use routing.Prelude.Float.{Float}
use routing.Prelude.Result.{Result, ok, err}
use routing.Matrix.Model.{PyError, assertion_error}
use routing.Orchestrator.Store.Tables.{
  Status, Database, StoreConfig, Reservation, other_account, add_charge, sum_account, latest,
}
use routing.Orchestrator.Store.Postgres.{
  PgDatabase, lock_account, delete_stale, update_amount, create_task, set_task_status,
}
use routing.Orchestrator.Store.Postgres.Config.{PgStore, Settings, init}
use routing.Orchestrator.Store.Transaction.{Tx, ◌>>=◌, ◌>>◌, done, closed, Driver}

module _ {D C A : Type 0} (dr : Driver D C) where
  -- What `conn.rollback()` raises is dropped.
  abbrev pub end_connection : Result PyError A × C → Result PyError A × C
  end_connection (ok a, c) = closed (ok a) (dr.close_conn false c)
  end_connection (err e, c) = closed (err e) (dr.close_conn true (dr.rollback c).1)

  -- `with self._connection() as conn`
  unfoldable pub with_connection : Tx C A → Tx C A
  with_connection body = dr.open_conn >> λ c. end_connection (body c)

module _ {C : Type 0} where
  -- `assert existing is not None`
  abbrev pub asserted : Option String → Tx C (String × Bool)
  asserted none c = (err assertion_error, c)
  asserted (some existing) c = (ok (existing, false), c)

module _ {F : Type 0} where
  abbrev pub on_tables : (Database F → Database F) → PgDatabase F → PgDatabase F
  on_tables change pg = record pg { db = change pg.db }

  -- `INSERT ... ON CONFLICT DO NOTHING RETURNING task_id`
  abbrev pub insert_key : String → String → PgDatabase F → Option String × PgDatabase F
  insert_key key task_id pg =
      let db = pg.db in
      elim (lookup key db.idempotency) [
        | none ↦ (
          some task_id,
          record pg { db = record db { idempotency = insert key task_id db.idempotency } },
        )
        | some existing ↦ (none, pg)
      ]

module _ {F C : Type 0} (dr : Driver (PgDatabase F) C) where
  abbrev pub run_sql : (PgDatabase F → PgDatabase F) → Tx C (Unit {0})
  run_sql change = dr.execute λ d. (tt, change d)

  -- `_lock_account`: the row is made if it is missing, and then locked.
  abbrev pub lock : String → Tx C (Unit {0})
  lock account_id = do run_sql λ pg. lock_account account_id pg; run_sql λ pg. pg

  abbrev pub claimed : String → Option String → Tx C (String × Bool)
  claimed key (some task_id) = dr.commit >> done (task_id, true)
  claimed key none = do
    existing ← dr.execute λ pg. (let db : Database F = pg.db in lookup key db.idempotency, pg)
    dr.commit >> asserted existing

  unfoldable pub register_idempotency_tx : String → String → Tx C (String × Bool)
  register_idempotency_tx key task_id =
      with_connection dr (do row ← dr.execute λ pg. insert_key key task_id pg; claimed key row)

  unfoldable pub create_task_tx : String → String → Option String → String → F → Tx C (Unit {0})
  create_task_tx task_id account_id key correlation_id now = with_connection dr (do
    run_sql λ pg. create_task task_id account_id key correlation_id now pg
    dr.commit >> done tt)

  unfoldable pub set_task_status_tx :
      String
      → Status
      → Option String
      → Option String
      → Option String
      → Option F
      → F
      → Tx C (Unit {0})
  set_task_status_tx task_id status error tier pointer cost now = with_connection dr (do
    run_sql λ pg. set_task_status task_id status error tier pointer cost now pg
    dr.commit >> done tt)

  abbrev pub delete_all : Option String → Tx C (Unit {0})
  delete_all none = do
    run_sql (on_tables λ d. record d { usage_charges = [] })
    run_sql (on_tables λ d. record d { idempotency = [] })
    run_sql (on_tables λ d. record d { tasks = [] })
    run_sql λ pg. record pg { account_locks = [] }
  delete_all (some account_id) = do
    run_sql (
        on_tables λ d. record d { usage_charges = keep (other_account account_id) d.usage_charges })
    run_sql
        (on_tables λ d. record d { tasks = keep (λ r. not (r.account_id == account_id)) d.tasks })

  unfoldable pub reset_tx : Option String → Tx C (Unit {0})
  reset_tx account_id = with_connection dr (do delete_all account_id; dr.commit >> done tt)

  -- `_setup`: `CREATE TABLE IF NOT EXISTS` leaves the tables that are there.
  unfoldable pub setup_tx : Tx C (Unit {0})
  setup_tx = with_connection dr (do run_sql λ pg. pg; dr.commit >> done tt)

  -- `__init__`, where `open_pool` is the pool's constructor and its `open`.
  abbrev pub start_pool :
      (PgStore F → Tx C (Unit {0})) → Result PyError (PgStore F) → Tx C (PgStore F)
  start_pool open_pool (err e) c = (err e, c)
  start_pool open_pool (ok store) c = (open_pool store >>= λ u. setup_tx >>= λ u2. done store) c

  unfoldable pub new_store : (PgStore F → Tx C (Unit {0})) → Bool → Settings F → Tx C (PgStore F)
  unfolding setup_tx
  new_store open_pool has_psycopg s = start_pool open_pool (init has_psycopg s)

module _ {F C : Type 0} ⦃f : Float F⦄ (dr : Driver (PgDatabase F) C) (cfg : StoreConfig F) where
  abbrev pub select_sum : String → Tx C F
  select_sum account_id =
      dr.execute λ pg. (let db : Database F = pg.db in sum_account account_id db.usage_charges, pg)

  unfoldable pub reserve_tx : String → F → F → Tx C (Reservation F)
  reserve_tx account_id projected_cost now = with_connection dr (do
    lock dr account_id
    run_sql dr λ pg. delete_stale cfg account_id now pg
    balance ← select_sum account_id
    run_sql dr (on_tables λ d. add_charge account_id projected_cost now d)
    dr.commit
        >> done (record {
          account_id = account_id;
          degraded = f.le cfg.threshold (f.add balance projected_cost);
          projected_cost = projected_cost;
          balance = f.add balance projected_cost;
        }))

  abbrev pub update_row : Option ℕ → F → Tx C (Unit {0})
  update_row none actual_cost = done tt
  update_row (some i) actual_cost = run_sql dr λ pg. update_amount (some i) actual_cost pg

  unfoldable pub settle_tx : String → F → F → F → Tx C F
  settle_tx account_id reserved_cost actual_cost now = with_connection dr (do
    lock dr account_id
    run_sql dr λ pg. delete_stale cfg account_id now pg
    row ←
        dr.execute λ pg.
          (let db : Database F = pg.db in latest account_id reserved_cost db.usage_charges, pg)
    update_row row actual_cost
    balance ← select_sum account_id
    dr.commit >> done balance)

  unfoldable pub balance_tx : String → F → Tx C F
  balance_tx account_id now = with_connection dr (do
    run_sql dr λ pg. delete_stale cfg account_id now pg
    balance ← select_sum account_id
    dr.commit >> done balance)
