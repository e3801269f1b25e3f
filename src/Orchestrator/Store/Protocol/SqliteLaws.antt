-- ===== src/Orchestrator/Store/Protocol/SqliteLaws.antt =====
-- `SqliteAtomicStore` keeps the laws of a store.
use routing.Prelude.{
  ℕ, ◌≡◌, refl, ◌≢◌, String, eq_iff, true, false, Option, none, some, arith, Option-cases, inl, inr,
  eq_refl,
}
use routing.Prelude.Dict.{lookup-insert}
use routing.Prelude.Float.{Float}
use routing.Orchestrator.Store.Tables.{TaskRow, StoreConfig, Database, find_task, add_charge}
use routing.Orchestrator.Store.Sqlite
use routing.Orchestrator.Store.Sqlite.{prune_db, revalue}
use routing.Orchestrator.Store.Sqlite.Rows.{get_task-set_status, get_task-new_row}
use routing.Orchestrator.Store.Protocol.{sqlite}
use routing.Orchestrator.Store.Protocol.Laws.{IsStore}

module _ {F : Type 0} where
  pub owned_by :
      (j a : String) (s : Database F)
      → Sqlite.task_owner j s ≡ some a
      → (r : TaskRow F) × (Sqlite.get_task j a s ≡ some r) × (r.account_id ≡ a)
  unfolding Sqlite.task_owner Sqlite.get_task
  owned_by j a s h = elim (Option-cases (find_task j s.tasks)) [
    | inl missing ↦ absurd (ground arith)
    | inr (r, found) ↦ (r, ground (arith, eq_iff r.account_id a), ground arith)
  ]

  pub not_owned_by :
      (j a b : String) (s : Database F)
      → Sqlite.task_owner j s ≡ some b
      → a ≢ b
      → Sqlite.get_task j a s ≡ none
  unfolding Sqlite.task_owner Sqlite.get_task
  not_owned_by j a b s h ne = elim (Option-cases (find_task j s.tasks)) [
    | inl missing ↦ ground arith
    | inr (r, found) ↦ ground (arith, eq_iff r.account_id a)
  ]

  pub no_owner :
      (j a : String) (s : Database F) → Sqlite.task_owner j s ≡ none → Sqlite.get_task j a s ≡ none
  unfolding Sqlite.task_owner Sqlite.get_task
  no_owner j a s h = ground arith

  pub register_new :
      (key id : String) (s : Database F)
      → Sqlite.get_idempotency key s ≡ none
      → ((Sqlite.register_idempotency key id s).0 ≡ (id, true))
        × (Sqlite.get_idempotency key (Sqlite.register_idempotency key id s).1 ≡ some id)
        × ((j : String)
            → Sqlite.task_owner j (Sqlite.register_idempotency key id s).1 ≡ Sqlite.task_owner j s)
  unfolding Sqlite.register_idempotency Sqlite.get_idempotency Sqlite.task_owner
  register_new key id s h = (
    ground arith,
    ground (arith, lookup-insert key key id s.idempotency, eq_refl key),
    λ j. ground arith,
  )

  pub register_old :
      (key id owner : String) (s : Database F)
      → Sqlite.get_idempotency key s ≡ some owner
      → Sqlite.register_idempotency key id s ≡ ((owner, false), s)
  unfolding Sqlite.register_idempotency Sqlite.get_idempotency
  register_old key id owner s h = ground arith

  pub register_tasks :
      (key id : String) (s : Database F) → (Sqlite.register_idempotency key id s).1.tasks ≡ s.tasks
  unfolding Sqlite.register_idempotency
  register_tasks key id s = ground arith

  pub register_kept :
      (key id : String) (s : Database F) (k owner : String)
      → Sqlite.get_idempotency k s ≡ some owner
      → Sqlite.get_idempotency k (Sqlite.register_idempotency key id s).1 ≡ some owner
  unfolding Sqlite.register_idempotency Sqlite.get_idempotency
  register_kept key id s k owner h =
      ground (arith, lookup-insert key k id s.idempotency, eq_iff key k)

module _ {F : Type 0} ⦃f : Float F⦄ where
  revalue_tasks : (i : Option ℕ) (x : F) (s : Database F) → (revalue i x s).tasks ≡ s.tasks
  revalue_tasks none x s = refl
  revalue_tasks (some i) x s = refl

  pub settle_tasks :
      (cfg : StoreConfig F) (b : String) (r x now : F) (s : Database F)
      → (Sqlite.settle cfg b r x now s).1.tasks ≡ s.tasks
  unfolding Sqlite.settle prune_db
  settle_tasks cfg b r x now s = revalue_tasks _ x (prune_db cfg b now s)

  pub reserve_tasks :
      (cfg : StoreConfig F) (b : String) (cost now : F) (s : Database F)
      → (Sqlite.reserve cfg b cost now s).1.tasks ≡ s.tasks
  unfolding Sqlite.reserve prune_db add_charge
  reserve_tasks cfg b cost now s = refl

  revalue_keys :
      (i : Option ℕ) (x : F) (s : Database F) → (revalue i x s).idempotency ≡ s.idempotency
  revalue_keys none x s = refl
  revalue_keys (some i) x s = refl

  pub settle_keys :
      (cfg : StoreConfig F) (b : String) (r x now : F) (s : Database F)
      → (Sqlite.settle cfg b r x now s).1.idempotency ≡ s.idempotency
  unfolding Sqlite.settle prune_db
  settle_keys cfg b r x now s = revalue_keys _ x (prune_db cfg b now s)

  pub reserve_keys :
      (cfg : StoreConfig F) (b : String) (cost now : F) (s : Database F)
      → (Sqlite.reserve cfg b cost now s).1.idempotency ≡ s.idempotency
  unfolding Sqlite.reserve prune_db add_charge
  reserve_keys cfg b cost now s = refl

  -- The SQLite store keeps the laws: what an account reads after each write, whom a task belongs to,
  -- and how keys are claimed.
  pub sqlite-IsStore : (cfg : StoreConfig F) → IsStore F (Database F) (sqlite cfg)
  unfolding Sqlite.get_task Sqlite.get_idempotency
  sqlite-IsStore cfg = record {
    get-set_status = λ id st e t p c now s j a. get_task-set_status id st e t p c now s j a;
    get-reserve = λ b cost now s j a. rw reserve_tasks;
    get-settle = λ b r x now s j a. rw settle_tasks;
    get-register = λ key id s j a. rw register_tasks;
    get-create = λ id b key corr now s j a ne. (get_task-new_row id b key corr now s).3 j a ne;
    owner-get = not_owned_by;
    no_owner-get = no_owner;
    own-get = owned_by;
    register-old = register_old;
    register-new = register_new;
    create-keys = λ id a key corr now s k. unfold Sqlite.create_task in refl;
    create-owner = λ id a key corr now s. (get_task-new_row id a key corr now s).2;
    keys-reserve = λ b cost now s k. rw reserve_keys;
    keys-settle = λ b r x now s k. rw settle_keys;
    keys-set_status = λ id st e t p c now s k. unfold Sqlite.set_task_status in refl;
    keys-register = register_kept;
  }
