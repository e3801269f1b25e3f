-- ===== src/Orchestrator/Store/Sqlite/Invariant.antt =====
-- Sequences of operations of `SqliteAtomicStore` (orchestrator/store.py): the ids of
-- `usage_charges`, and the keys that are claimed.
use routing.Prelude.{
  ℕ, ◌≡◌, refl, String, eq_iff, eq_refl, false, Option, none, some, List, [], ◌∷◌, arith, All, inl,
  inr, Option-cases,
}
use routing.Prelude.Dict.{lookup, lookup-insert}
use routing.Prelude.Float.{Float}
use routing.Orchestrator.Store.Tables.{Status, Database, StoreConfig, is_kept, prune, add_charge}
use routing.Orchestrator.Store.Tables.Ids.{
  IsWellFormed, Ascends-keep, Ascends-append, Ascends-set_amount,
}
use routing.Orchestrator.Store.Sqlite.{
  prune_db, reserve, revalue, settle, balance, register_idempotency, create_task, set_task_status,
  reset,
}

-- A call of an operation that writes.
pub data Write (F : Type 0) : Type 0 where
  reserves : String → F → F → Write F
  settles : String → F → F → F → Write F
  balances : String → F → Write F
  registers : String → String → Write F
  creates : String → String → Option String → String → F → Write F
  marks : String → Status → Option String → Option String → Option String → Option F → F → Write F
  resets : Option String → Write F

module _ {F : Type 0} ⦃f : Float F⦄ where
  unfoldable pub apply : StoreConfig F → Write F → Database F → Database F
  apply cfg (reserves a cost now) db = (reserve cfg a cost now db).1
  apply cfg (settles a reserved actual now) db = (settle cfg a reserved actual now db).1
  apply cfg (balances a now) db = (balance cfg a now db).1
  apply cfg (registers key id) db = (register_idempotency key id db).1
  apply cfg (creates id a key corr now) db = create_task id a key corr now db
  apply cfg (marks id st e t p c now) db = set_task_status id st e t p c now db
  apply cfg (resets a) db = reset a db

  unfoldable pub apply_all : StoreConfig F → List (Write F) → Database F → Database F
  apply_all cfg [] db = db
  apply_all cfg (w ∷ ws) db = apply_all cfg ws (apply cfg w db)

  prune-IsWellFormed :
      (cfg : StoreConfig F) (a : String) (now : F) {db : Database F}
      → IsWellFormed db
      → IsWellFormed (prune_db cfg a now db)
  unfolding prune_db prune
  prune-IsWellFormed cfg a now {db} wf = record {
    ascends = Ascends-keep (is_kept cfg a now) 0 db.usage_charges db.next_id wf.ascends;
  }

  revalue-IsWellFormed :
      (i : Option ℕ) (x : F) (db : Database F) → IsWellFormed db → IsWellFormed (revalue i x db)
  revalue-IsWellFormed none x db wf = wf
  revalue-IsWellFormed (some i) x db wf = record {
    ascends = Ascends-set_amount i x 0 db.usage_charges db.next_id wf.ascends;
  }

  register-IsWellFormed :
      (key id : String) (db : Database F)
      → IsWellFormed db
      → IsWellFormed (register_idempotency key id db).1
  unfolding register_idempotency
  register-IsWellFormed key id db wf = elim (Option-cases (lookup key db.idempotency)) [
    | inl fresh ↦ rw (fresh, register_idempotency) (record { ascends = wf.ascends })
    | inr (t, old) ↦ rw (old, register_idempotency) wf
  ]

  pub apply-IsWellFormed :
      (cfg : StoreConfig F) (w : Write F) (db : Database F)
      → IsWellFormed db
      → IsWellFormed (apply cfg w db)
  unfolding apply
  apply-IsWellFormed cfg (reserves a cost now) db wf =
      let pruned = prune_db cfg a now db in
      let w = prune-IsWellFormed cfg a now wf in
      unfold reserve add_charge in
      record { ascends = Ascends-append 0 pruned.usage_charges _ pruned.next_id w.ascends refl }
  apply-IsWellFormed cfg (settles a reserved actual now) db wf =
      unfold settle in
      revalue-IsWellFormed _ actual (prune_db cfg a now db) (prune-IsWellFormed cfg a now wf)
  apply-IsWellFormed cfg (balances a now) db wf = unfold balance in wf
  apply-IsWellFormed cfg (registers key id) db wf = register-IsWellFormed key id db wf
  apply-IsWellFormed cfg (creates id a key corr now) db wf =
      unfold create_task in record { ascends = wf.ascends }
  apply-IsWellFormed cfg (marks id st e t p c now) db wf =
      unfold set_task_status in record { ascends = wf.ascends }
  apply-IsWellFormed cfg (resets none) db wf = unfold reset in record { ascends = omega arith }
  apply-IsWellFormed cfg (resets (some a)) db wf =
      unfold reset in record { ascends = Ascends-keep _ 0 db.usage_charges db.next_id wf.ascends }

  -- Whatever operations are applied, in any order, to a database whose row ids ascend and stay below
  -- the counter, the ids ascend and stay below the counter.
  pub apply_all-IsWellFormed :
      (cfg : StoreConfig F) (ws : List (Write F)) (db : Database F)
      → IsWellFormed db
      → IsWellFormed (apply_all cfg ws db)
  unfolding apply_all
  apply_all-IsWellFormed cfg [] db wf = wf
  apply_all-IsWellFormed cfg (w ∷ ws) db wf =
      apply_all-IsWellFormed cfg ws (apply cfg w db) (apply-IsWellFormed cfg w db wf)

  -- All but the reset of the whole database.
  abbrev pub KeepsKeys : Write F → Type 0
  KeepsKeys (resets none) = ⊥
  KeepsKeys _ = Unit

  register-lookup :
      (other id : String) (db : Database F) (key owner : String)
      → lookup key db.idempotency ≡ some owner
      → lookup key (register_idempotency other id db).1.idempotency ≡ some owner
  unfolding register_idempotency
  register-lookup other id db key owner h =
      ground (arith, lookup-insert other key id db.idempotency, eq_iff other key)

  revalue_idempotency :
      (i : Option ℕ) (x : F) (db : Database F) → (revalue i x db).idempotency ≡ db.idempotency
  revalue_idempotency none x db = refl
  revalue_idempotency (some i) x db = refl

  apply-lookup :
      (cfg : StoreConfig F) (w : Write F) (db : Database F) (key owner : String)
      → KeepsKeys w
      → lookup key db.idempotency ≡ some owner
      → lookup key (apply cfg w db).idempotency ≡ some owner
  unfolding apply
  apply-lookup cfg (reserves a cost now) db key owner k h = unfold reserve add_charge prune_db in h
  apply-lookup cfg (settles a reserved actual now) db key owner k h =
      unfold settle prune_db in rw revalue_idempotency h
  apply-lookup cfg (balances a now) db key owner k h = unfold balance in h
  apply-lookup cfg (registers other id) db key owner k h = register-lookup other id db key owner h
  apply-lookup cfg (creates id a j corr now) db key owner k h = unfold create_task in h
  apply-lookup cfg (marks id st e t p c now) db key owner k h = unfold set_task_status in h
  apply-lookup cfg (resets none) db key owner k h = absurd k
  apply-lookup cfg (resets (some a)) db key owner k h = unfold reset in h

  apply_all-lookup :
      (cfg : StoreConfig F) (ws : List (Write F)) (db : Database F) (key owner : String)
      → All KeepsKeys ws
      → lookup key db.idempotency ≡ some owner
      → lookup key (apply_all cfg ws db).idempotency ≡ some owner
  unfolding apply_all
  apply_all-lookup cfg [] db key owner k h = h
  apply_all-lookup cfg (w ∷ ws) db key owner k h =
      apply_all-lookup cfg ws (apply cfg w db) key owner k.1 (apply-lookup cfg w db key owner k.0 h)

  registered :
      (key id : String) (db : Database F)
      → lookup key (register_idempotency key id db).1.idempotency
        ≡ some (register_idempotency key id db).0.0
  unfolding register_idempotency
  registered key id db = ground (arith, lookup-insert key key id db.idempotency, eq_refl key)

  claimed_already :
      (key id : String) (db : Database F) (owner : String)
      → lookup key db.idempotency ≡ some owner
      → register_idempotency key id db ≡ ((owner, false), db)
  unfolding register_idempotency
  claimed_already key id db owner h = ground arith

  -- A key that was claimed stays claimed: after a claim of a key and any operations but a reset of the
  -- whole database, another claim of the key returns the task of the first claim, reports that it
  -- created nothing, and changes nothing.
  pub register_idempotency-again :
      (cfg : StoreConfig F) (ws : List (Write F)) (key first second : String) (db : Database F)
      → All KeepsKeys ws
      → let (claim, db1) = register_idempotency key first db in
        let db2 = apply_all cfg ws db1 in
        register_idempotency key second db2 ≡ ((claim.0, false), db2)
  register_idempotency-again cfg ws key first second db k =
      let (claim, db1) = register_idempotency key first db in
      let still = apply_all-lookup cfg ws db1 key claim.0 k (registered key first db) in
      claimed_already key second (apply_all cfg ws db1) claim.0 still
