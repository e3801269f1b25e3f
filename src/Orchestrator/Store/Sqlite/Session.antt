-- ===== src/Orchestrator/Store/Sqlite/Session.antt =====
-- The methods of `SqliteAtomicStore` (orchestrator/store.py) that write, statement by statement, with
-- their `try`, `except` and `finally`.
use routing.Prelude.{ℕ, String, ◌==◌, Bool, true, false, not, Option, none, some, [], keep}
use routing.Prelude.Dict.{lookup, insert}
use routing.Prelude.Float.{Float}
use routing.Prelude.Result.{Result, ok, err}
use routing.Matrix.Model.{PyError}
use routing.Orchestrator.Store.Tables.{
  Status, Database, StoreConfig, Reservation, add_charge, sum_account, latest,
}
use routing.Orchestrator.Store.Sqlite.{prune_db, revalue, create_task, set_task_status}
use routing.Orchestrator.Store.Transaction.{Tx, ◌>>=◌, ◌>>◌, done, closed, Driver}

module _ {D C A : Type 0} (dr : Driver D C) where
  -- `conn.rollback()` and `raise`, then `conn.close()`: what the rollback raises replaces the
  -- exception.
  abbrev pub rolled_back : PyError → Result PyError (Unit {0}) × C → Result PyError A × C
  rolled_back e (ok u, c) = closed (err e) (dr.close_conn true c)
  rolled_back e (err x, c) = closed (err x) (dr.close_conn true c)

  abbrev pub end_session : Result PyError A × C → Result PyError A × C
  end_session (ok a, c) = closed (ok a) (dr.close_conn false c)
  end_session (err e, c) = rolled_back e (dr.rollback c)

  -- `conn = self._connect()`, and the `try` with `except` and `finally`.
  unfoldable pub in_session : Tx C A → Tx C A
  in_session body = dr.open_conn >> λ c. end_session (body c)

  abbrev pub end_simple : Result PyError A × C → Result PyError A × C
  end_simple (ok a, c) = closed (ok a) (dr.close_conn false c)
  end_simple (err e, c) = closed (err e) (dr.close_conn true c)

  -- The same without an `except`.
  unfoldable pub in_simple_session : Tx C A → Tx C A
  in_simple_session body = dr.open_conn >> λ c. end_simple (body c)

module _ {F C : Type 0} (dr : Driver (Database F) C) where
  -- A statement without an answer.
  abbrev pub run_sql : (Database F → Database F) → Tx C (Unit {0})
  run_sql change = dr.execute λ d. (tt, change d)

  -- `BEGIN IMMEDIATE`
  abbrev pub begin : Tx C (Unit {0})
  begin = run_sql λ d. d

  abbrev pub claim_key : String → String → Option String → Tx C (String × Bool)
  claim_key key task_id (some existing) = dr.commit >> done (existing, false)
  claim_key key task_id none = do
    run_sql λ d. record d { idempotency = insert key task_id d.idempotency }
    dr.commit >> done (task_id, true)

  unfoldable pub register_idempotency_tx : String → String → Tx C (String × Bool)
  register_idempotency_tx key task_id =
      in_session dr
        (do begin; row ← dr.execute λ d. (lookup key d.idempotency, d); claim_key key task_id row)

  unfoldable pub create_task_tx : String → String → Option String → String → F → Tx C (Unit {0})
  create_task_tx task_id account_id key correlation_id now = in_simple_session dr (do
    run_sql λ d. create_task task_id account_id key correlation_id now d
    dr.commit >> done tt)

  unfoldable pub set_task_status_tx :
      String
      → Status
      → Option String
      → Option String
      → Option String
      → Option F
      → F
      → Tx C (Unit {0})
  set_task_status_tx task_id status error tier pointer cost now = in_simple_session dr (do
    run_sql λ d. set_task_status task_id status error tier pointer cost now d
    dr.commit >> done tt)

  abbrev pub delete_all : Option String → Tx C (Unit {0})
  delete_all none = do
    run_sql λ d. record d { usage_charges = [] }
    run_sql λ d. record d { idempotency = [] }
    run_sql λ d. record d { tasks = [] }
  delete_all (some account_id) = do
    run_sql λ d. record d {
      usage_charges = keep (λ c. not (c.account_id == account_id)) d.usage_charges;
    }
    run_sql λ d. record d { tasks = keep (λ r. not (r.account_id == account_id)) d.tasks }

  unfoldable pub reset_tx : Option String → Tx C (Unit {0})
  reset_tx account_id = in_session dr (do begin; delete_all account_id; dr.commit >> done tt)

  -- `_setup`: `CREATE TABLE IF NOT EXISTS` leaves the tables that are there.
  unfoldable pub setup_tx : Tx C (Unit {0})
  setup_tx = in_simple_session dr (do run_sql λ d. d; dr.commit >> done tt)

module _ {F C : Type 0} ⦃f : Float F⦄ (dr : Driver (Database F) C) (cfg : StoreConfig F) where
  abbrev pub select_sum : String → Tx C F
  select_sum account_id = dr.execute λ d. (sum_account account_id d.usage_charges, d)

  unfoldable pub reserve_tx : String → F → F → Tx C (Reservation F)
  reserve_tx account_id projected_cost now = in_session dr (do
    begin dr
    run_sql dr λ d. prune_db cfg account_id now d
    balance ← select_sum account_id
    run_sql dr λ d. add_charge account_id projected_cost now d
    dr.commit
        >> done (record {
          account_id = account_id;
          degraded = f.le cfg.threshold (f.add balance projected_cost);
          projected_cost = projected_cost;
          balance = f.add balance projected_cost;
        }))

  abbrev pub update_row : Option ℕ → F → Tx C (Unit {0})
  update_row none actual_cost = done tt
  update_row (some i) actual_cost = run_sql dr λ d. revalue (some i) actual_cost d

  unfoldable pub settle_tx : String → F → F → F → Tx C F
  settle_tx account_id reserved_cost actual_cost now = in_session dr (do
    begin dr
    run_sql dr λ d. prune_db cfg account_id now d
    row ← dr.execute λ d. (latest account_id reserved_cost d.usage_charges, d)
    update_row row actual_cost
    balance ← select_sum account_id
    dr.commit >> done balance)
