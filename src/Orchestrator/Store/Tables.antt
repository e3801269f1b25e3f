-- ===== src/Orchestrator/Store/Tables.antt =====
-- The rows of the tables of orchestrator/store.py, and the statements that both backends share.
-- Rows stand in the order of insertion.
pub mod Sums
pub mod Ids
pub mod Find
use routing.Prelude.{
  ℕ, ◌+◌, String, ◌==◌, ◌==ℕ◌, Bool, not, ◌&&◌, Option, none, some, List, [], ◌∷◌, ◌++◌, ltb, keep,
  if◌then◌else◌,
}
use routing.Prelude.Dict.{Dict}
use routing.Prelude.Float.{Float, lt, eq}

pub data Status : Type 0 where
  accepted running completed failed : Status

-- A row of `usage_charges`.
pub record Charge (F : Type 0) : Type 0 where
  pub id : ℕ
  pub account_id : String
  pub amount : F
  pub ts : F

-- A row of `tasks`. A column that may be NULL is an `Option`.
pub record TaskRow (F : Type 0) : Type 0 where
  pub task_id : String
  pub account_id : String
  pub idempotency_key : Option String
  pub correlation_id : String
  pub status : Status
  pub error : Option String
  pub tier : Option String
  pub model_pointer : Option String
  pub estimated_cost : Option F
  pub created_at : F
  pub updated_at : F

-- `next_id` is the counter of AUTOINCREMENT.
pub record Database (F : Type 0) : Type 0 where
  pub usage_charges : List (Charge F)
  pub next_id : ℕ
  pub idempotency : Dict String
  pub tasks : List (TaskRow F)

pub record StoreConfig (F : Type 0) : Type 0 where
  pub threshold : F
  pub window : F

pub record Reservation (F : Type 0) : Type 0 where
  pub account_id : String
  pub degraded : Bool
  pub projected_cost : F
  pub balance : F

-- The greater of two row ids, where the second may be missing.
abbrev pub newer : ℕ → Option ℕ → Option ℕ
newer i none = some i
newer i (some j) = if ltb i j then some j else some i

module _ {F : Type 0} where
  abbrev pub is_account : String → Charge F → Bool
  is_account account_id c = c.account_id == account_id

  abbrev pub other_account : String → Charge F → Bool
  other_account account_id c = not (is_account account_id c)

  -- The column `amount`.
  abbrev pub amounts : List (Charge F) → List F
  amounts [] = []
  amounts (c ∷ cs) = c.amount ∷ amounts cs

  -- `UPDATE usage_charges SET amount = ? WHERE id = ?`
  unfoldable pub set_amount : ℕ → F → List (Charge F) → List (Charge F)
  set_amount i amount [] = []
  set_amount i amount (c ∷ cs) =
      (if c.id ==ℕ i then record c { amount = amount } else c) ∷ set_amount i amount cs

  -- `INSERT INTO usage_charges`
  unfoldable pub add_charge : String → F → F → Database F → Database F
  add_charge account_id amount now db = record db {
    usage_charges =
        db.usage_charges
        ++ (record { id = db.next_id; account_id = account_id; amount = amount; ts = now } ∷ []);
    next_id = db.next_id + 1;
  }

  unfoldable pub find_task : String → List (TaskRow F) → Option (TaskRow F)
  find_task task_id [] = none
  find_task task_id (r ∷ rs) = if r.task_id == task_id then some r else find_task task_id rs

  abbrev pub is_task : String → TaskRow F → Bool
  is_task task_id r = r.task_id == task_id

  abbrev pub coalesce : Option F → Option F → Option F
  coalesce none old = old
  coalesce (some c) old = some c

  -- What `set_task_status` writes to a row.
  abbrev pub with_status :
      Status → Option String → Option String → Option String → Option F → F → TaskRow F → TaskRow F
  with_status status error tier pointer cost now r = record r {
    status = status;
    error = error;
    tier = tier;
    model_pointer = pointer;
    estimated_cost = coalesce cost r.estimated_cost;
    updated_at = now;
  }

  -- `UPDATE tasks SET ... WHERE task_id = ?`
  unfoldable pub update_task :
      String → (TaskRow F → TaskRow F) → List (TaskRow F) → List (TaskRow F)
  update_task task_id write [] = []
  update_task task_id write (r ∷ rs) =
      (if r.task_id == task_id then write r else r) ∷ update_task task_id write rs

  -- A row with status ACCEPTED and nothing more.
  abbrev pub new_row : String → String → Option String → String → F → TaskRow F
  new_row task_id account_id key correlation_id now = record {
    task_id = task_id;
    account_id = account_id;
    idempotency_key = key;
    correlation_id = correlation_id;
    status = accepted;
    error = none;
    tier = none;
    model_pointer = none;
    estimated_cost = none;
    created_at = now;
    updated_at = now;
  }

  abbrev pub owner_of : Option (TaskRow F) → Option String
  owner_of none = none
  owner_of (some r) = some r.account_id

  abbrev pub if_owned : String → Option (TaskRow F) → Option (TaskRow F)
  if_owned account_id none = none
  if_owned account_id (some r) = if r.account_id == account_id then some r else none

module _ {F : Type 0} ⦃f : Float F⦄ where
  -- The rows that `DELETE ... WHERE account_id = ? AND ts < ?` leaves.
  abbrev pub is_stale : StoreConfig F → F → Charge F → Bool
  is_stale cfg now c = lt c.ts (f.sub now cfg.window)

  abbrev pub is_kept : StoreConfig F → String → F → Charge F → Bool
  is_kept cfg account_id now c = not (is_account account_id c && is_stale cfg now c)

  unfoldable pub prune : StoreConfig F → String → F → List (Charge F) → List (Charge F)
  prune cfg account_id now = keep (is_kept cfg account_id now)

  -- `SELECT COALESCE(SUM(amount), 0.0) ... WHERE account_id = ?`
  unfoldable pub sum_account : String → List (Charge F) → F
  sum_account account_id charges = f.sum (amounts (keep (is_account account_id) charges))

  -- `SELECT id ... WHERE account_id = ? AND amount = ? ORDER BY id DESC LIMIT 1`
  unfoldable pub latest : String → F → List (Charge F) → Option ℕ
  latest account_id amount [] = none
  latest account_id amount (c ∷ cs) =
      let rest = latest account_id amount cs in
      if is_account account_id c && eq c.amount amount then newer c.id rest else rest
