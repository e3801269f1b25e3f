-- ===== src/Orchestrator/Store/Postgres/Upsert.antt =====
-- `PostgresAtomicStore` beside `SqliteAtomicStore`: `reserve`, `settle`, `balance` and
-- `register_idempotency` on the shared tables, and `create_task` for a task that exists.
use routing.Prelude.{
  ℕ, ◌≡◌, refl, ◌∙◌, ap, String, ◌==◌, eq_refl, not, Option, none, some, List, [], ◌∷◌, arith, keep,
}
use routing.Prelude.Float.{Float}
use routing.Orchestrator.Store.Tables.{
  accepted, TaskRow, Database, StoreConfig, find_task, prune, latest, sum_account,
}
use routing.Orchestrator.Store.Tables.Find.{find_task-update, find_task-id}
use routing.Orchestrator.Store.Sqlite
use routing.Orchestrator.Store.Sqlite.{prune_db}
use routing.Orchestrator.Store.Postgres.{
  PgDatabase, lock_account, update_amount, reserve, settle, balance, register_idempotency,
  overwrite, create_task, get_task,
}

module _ {F : Type 0} where
  lock_account-db : (a : String) (pg : PgDatabase F) → (lock_account a pg).db ≡ pg.db
  unfolding lock_account
  lock_account-db a pg = ground arith

module _ {F : Type 0} ⦃f : Float F⦄ where
  pub reserve_same :
      (cfg : StoreConfig F) (a : String) (cost now : F) (pg : PgDatabase F)
      → ((reserve cfg a cost now pg).0 ≡ (Sqlite.reserve cfg a cost now pg.db).0)
        × ((reserve cfg a cost now pg).1.db ≡ (Sqlite.reserve cfg a cost now pg.db).1)
  unfolding reserve Sqlite.reserve prune_db
  reserve_same cfg a cost now pg = rw lock_account-db (refl, refl)

  update_same :
      (i : Option ℕ) (x : F) (pg : PgDatabase F)
      → (update_amount i x pg).db ≡ Sqlite.revalue i x pg.db
  update_same none x pg = refl
  update_same (some i) x pg = refl

  pub settle_same :
      (cfg : StoreConfig F) (a : String) (reserved actual now : F) (pg : PgDatabase F)
      → ((settle cfg a reserved actual now pg).0
          ≡ (Sqlite.settle cfg a reserved actual now pg.db).0)
        × ((settle cfg a reserved actual now pg).1.db
            ≡ (Sqlite.settle cfg a reserved actual now pg.db).1)
  unfolding settle Sqlite.settle prune_db
  settle_same cfg a reserved actual now pg =
      let db = pg.db in
      let cs = prune cfg a now db.usage_charges in
      let row = latest a reserved cs in
      let pruned : PgDatabase F = record {
        db = record db { usage_charges = cs };
        account_locks = (lock_account a pg).account_locks;
      } in
      let same = update_same row actual pruned in
      rw lock_account-db (ap (λ (d : Database F). sum_account a d.usage_charges) same, same)

  pub balance_same :
      (cfg : StoreConfig F) (a : String) (now : F) (pg : PgDatabase F)
      → ((balance cfg a now pg).0 ≡ (Sqlite.balance cfg a now pg.db).0)
        × ((balance cfg a now pg).1.db ≡ prune_db cfg a now pg.db)
  unfolding balance Sqlite.balance prune_db
  balance_same cfg a now pg = (refl, refl)

module _ {F : Type 0} where
  pub register_same :
      (key id : String) (pg : PgDatabase F)
      → ((register_idempotency key id pg).0 ≡ (Sqlite.register_idempotency key id pg.db).0)
        × ((register_idempotency key id pg).1.db ≡ (Sqlite.register_idempotency key id pg.db).1)
  unfolding register_idempotency Sqlite.register_idempotency
  register_same key id pg = ground arith

  keep_absent :
      (id : String) (rows : List (TaskRow F))
      → find_task id rows ≡ none
      → keep (λ r. not (r.task_id == id)) rows ≡ rows
  unfolding find_task
  keep_absent id [] h = refl
  keep_absent id (r ∷ rows) h = ground (arith, keep_absent id rows)

  pub create_same :
      (id a : String) (key : Option String) (corr : String) (now : F) (pg : PgDatabase F)
      → find_task id pg.db.tasks ≡ none
      → (create_task id a key corr now pg).db ≡ Sqlite.create_task id a key corr now pg.db
  unfolding create_task Sqlite.create_task
  create_same id a key corr now pg h = rw h (rw (keep_absent id pg.db.tasks h))

  -- Creating a task whose id has a row already: the row that the account reads from Postgres has the
  -- status ACCEPTED, the account, the key, the correlation id and the times of the new task, and the
  -- error, the tier, the model pointer and the cost of the old row; the row that it reads from SQLite
  -- has the same but none of those four.
  pub create_task_existing :
      (id a : String) (key : Option String) (corr : String) (now : F) (pg : PgDatabase F)
      (old : TaskRow F)
      → find_task id pg.db.tasks ≡ some old
      → (get_task id a (create_task id a key corr now pg)
          ≡ some (record {
            task_id = id;
            account_id = a;
            idempotency_key = key;
            correlation_id = corr;
            status = accepted;
            error = old.error;
            tier = old.tier;
            model_pointer = old.model_pointer;
            estimated_cost = old.estimated_cost;
            created_at = now;
            updated_at = now;
          }))
        × (Sqlite.get_task id a (Sqlite.create_task id a key corr now pg.db)
            ≡ some (record {
              task_id = id;
              account_id = a;
              idempotency_key = key;
              correlation_id = corr;
              status = accepted;
              error = none;
              tier = none;
              model_pointer = none;
              estimated_cost = none;
              created_at = now;
              updated_at = now;
            }))
  unfolding get_task create_task
  create_task_existing id a key corr now pg old h =
      let same : get_task id a (create_task id a key corr now pg)
          ≡ some (overwrite a key corr now old) =
        ground (
          arith,
          find_task-update id id (overwrite a key corr now) (λ r. refl) pg.db.tasks,
          eq_refl id,
          eq_refl a,
        ) in
      (
        same
            ∙ ap (λ i. some (record (overwrite a key corr now old) { task_id = i }))
                (find_task-id id pg.db.tasks old h),
        (Sqlite.Rows.get_task-new_row id a key corr now pg.db).0,
      )
