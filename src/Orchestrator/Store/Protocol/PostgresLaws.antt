-- ===== src/Orchestrator/Store/Protocol/PostgresLaws.antt =====
-- `PostgresAtomicStore` keeps the laws of a store: each read is the one of `SqliteAtomicStore` on the
-- shared tables.
use routing.Prelude.{
  ◌≡◌, ◌≢◌, refl, ap, ◌∙◌, String, true, false, Option, none, some, arith, Option-cases, inl, inr,
  eq_refl, eq_iff,
}
use routing.Prelude.Dict.{lookup, lookup-insert}
use routing.Prelude.Float.{Float}
use routing.Orchestrator.Store.Tables.{Status, StoreConfig, Database, find_task, new_row, if_owned}
use routing.Orchestrator.Store.Tables.Find.{find_task-update, find_task-append}
use routing.Orchestrator.Store.Sqlite
use routing.Orchestrator.Store.Sqlite.Rows.{get_task-set_status}
use routing.Orchestrator.Store.Postgres
use routing.Orchestrator.Store.Postgres.{PgDatabase, overwrite, upsert}
use routing.Orchestrator.Store.Postgres.Upsert.{reserve_same, settle_same, register_same}
use routing.Orchestrator.Store.Protocol.{postgres}
use routing.Orchestrator.Store.Protocol.Laws.{IsStore}
use routing.Orchestrator.Store.Protocol.SqliteLaws.{
  owned_by, not_owned_by, no_owner, settle_tasks, reserve_tasks, register_tasks, settle_keys,
  reserve_keys,
}

module _ {F : Type 0} where
  get_task-tasks :
      (j a : String) (d e : Database F)
      → d.tasks ≡ e.tasks
      → Sqlite.get_task j a d ≡ Sqlite.get_task j a e
  unfolding Sqlite.get_task
  get_task-tasks j a d e h = ap (λ ts. if_owned a (find_task j ts)) h

  pg_set_status :
      (id : String) (st : Status) (e t p : Option String) (c : Option F) (now : F)
      (pg : PgDatabase F)
      → (Postgres.set_task_status id st e t p c now pg).db
        ≡ Sqlite.set_task_status id st e t p c now pg.db
  unfolding Postgres.set_task_status Sqlite.set_task_status
  pg_set_status id st e t p c now pg = refl

  pg_create-owner :
      (id a : String) (key : Option String) (corr : String) (now : F) (pg : PgDatabase F)
      → Postgres.task_owner id (Postgres.create_task id a key corr now pg) ≡ some a
  unfolding Postgres.task_owner Postgres.create_task
  pg_create-owner id a key corr now pg = elim (Option-cases (find_task id pg.db.tasks)) [
    | inl fresh ↦
        ground (arith, find_task-append id pg.db.tasks (new_row id a key corr now), eq_refl id)
    | inr (r, old) ↦ ground (
      arith,
      find_task-update id id (overwrite a key corr now) (λ q. refl) pg.db.tasks,
      eq_refl id,
    )
  ]

  pg_get-create :
      (id b : String) (key : Option String) (corr : String) (now : F) (pg : PgDatabase F)
      (j a : String)
      → id ≢ j
      → Postgres.get_task j a (Postgres.create_task id b key corr now pg) ≡ Postgres.get_task j a pg
  unfolding Postgres.get_task Postgres.create_task
  pg_get-create id b key corr now pg j a ne = elim (Option-cases (find_task id pg.db.tasks)) [
    | inl fresh ↦
        ground (arith, find_task-append j pg.db.tasks (new_row id b key corr now), eq_iff id j)
    | inr (r, old) ↦ ground (
      arith,
      find_task-update j id (overwrite b key corr now) (λ q. refl) pg.db.tasks,
      eq_iff id j,
    )
  ]

  get_idempotency-keys :
      (k : String) (d e : Database F)
      → d.idempotency ≡ e.idempotency
      → Sqlite.get_idempotency k d ≡ Sqlite.get_idempotency k e
  unfolding Sqlite.get_idempotency
  get_idempotency-keys k d e h = ap (lookup k) h

  pg_register_kept :
      (key id : String) (pg : PgDatabase F) (k owner : String)
      → Postgres.get_idempotency k pg ≡ some owner
      → Postgres.get_idempotency k (Postgres.register_idempotency key id pg).1 ≡ some owner
  unfolding Postgres.register_idempotency Postgres.get_idempotency
  pg_register_kept key id pg k owner h =
      ground (arith, lookup-insert key k id pg.db.idempotency, eq_iff key k)

  pg_create-keys :
      (id a : String) (key : Option String) (corr : String) (now : F) (pg : PgDatabase F)
      (k : String)
      → Postgres.get_idempotency k (Postgres.create_task id a key corr now pg)
        ≡ Postgres.get_idempotency k pg
  unfolding Postgres.get_idempotency Postgres.create_task
  pg_create-keys id a key corr now pg k = refl

  pg_register_old :
      (key id owner : String) (pg : PgDatabase F)
      → Postgres.get_idempotency key pg ≡ some owner
      → Postgres.register_idempotency key id pg ≡ ((owner, false), pg)
  unfolding Postgres.register_idempotency Postgres.get_idempotency
  pg_register_old key id owner pg h = ground arith

  pg_register_new :
      (key id : String) (pg : PgDatabase F)
      → Postgres.get_idempotency key pg ≡ none
      → ((Postgres.register_idempotency key id pg).0 ≡ (id, true))
        × (Postgres.get_idempotency key (Postgres.register_idempotency key id pg).1 ≡ some id)
        × ((j : String)
            → Postgres.task_owner j (Postgres.register_idempotency key id pg).1
              ≡ Postgres.task_owner j pg)
  unfolding Postgres.register_idempotency Postgres.get_idempotency Postgres.task_owner
  pg_register_new key id pg h = (
    ground arith,
    ground (arith, lookup-insert key key id pg.db.idempotency, eq_refl key),
    λ j. ground arith,
  )

module _ {F : Type 0} ⦃f : Float F⦄ where
  -- The Postgres store keeps the same laws as the SQLite store.
  pub postgres-IsStore : (cfg : StoreConfig F) → IsStore F (PgDatabase F) (postgres cfg)
  unfolding Postgres.get_task Sqlite.get_task Postgres.task_owner Sqlite.task_owner
      Postgres.get_idempotency Sqlite.get_idempotency
  postgres-IsStore cfg = record {
    get-set_status = λ id st e t p c now pg j a.
        ap (Sqlite.get_task j a) (pg_set_status id st e t p c now pg)
        ∙ get_task-set_status id st e t p c now pg.db j a;
    get-reserve = λ b cost now pg j a.
        get_task-tasks j a (Postgres.reserve cfg b cost now pg).1.db pg.db (
          ap (λ (d : Database F). d.tasks) (reserve_same cfg b cost now pg).1
          ∙ reserve_tasks cfg b cost now pg.db);
    get-settle = λ b r x now pg j a.
        get_task-tasks j a (Postgres.settle cfg b r x now pg).1.db pg.db (
          ap (λ (d : Database F). d.tasks) (settle_same cfg b r x now pg).1
          ∙ settle_tasks cfg b r x now pg.db);
    get-register = λ key id pg j a.
        get_task-tasks j a (Postgres.register_idempotency key id pg).1.db pg.db (
          ap (λ (d : Database F). d.tasks) (register_same key id pg).1
          ∙ register_tasks key id pg.db);
    get-create = pg_get-create;
    owner-get = λ j a b pg. not_owned_by j a b pg.db;
    no_owner-get = λ j a pg. no_owner j a pg.db;
    own-get = λ j a pg. owned_by j a pg.db;
    register-old = pg_register_old;
    register-new = pg_register_new;
    create-keys = pg_create-keys;
    create-owner = pg_create-owner;
    keys-reserve = λ b cost now pg k.
        get_idempotency-keys k (Postgres.reserve cfg b cost now pg).1.db pg.db (
          ap (λ (d : Database F). d.idempotency) (reserve_same cfg b cost now pg).1
          ∙ reserve_keys cfg b cost now pg.db);
    keys-settle = λ b r x now pg k.
        get_idempotency-keys k (Postgres.settle cfg b r x now pg).1.db pg.db (
          ap (λ (d : Database F). d.idempotency) (settle_same cfg b r x now pg).1
          ∙ settle_keys cfg b r x now pg.db);
    keys-set_status = λ id st e t p c now pg k. unfold Postgres.set_task_status in refl;
    keys-register = pg_register_kept;
  }
