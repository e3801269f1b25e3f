-- ===== src/Orchestrator/Store/Sqlite/Rows.antt =====
-- The task rows of `SqliteAtomicStore`: what is read after a write, and who may read it.
use mathlib.Core.Option
use routing.Prelude.{
  ◌≡◌, refl, ◌≢◌, String, ◌==◌, eq_iff, eq_refl, not, Option, none, some, arith, keep,
  if◌then◌else◌,
}
use routing.Orchestrator.Store.Tables.{Status, Database, find_task, with_status, new_row}
use routing.Orchestrator.Store.Tables.Find.{find_task-update, find_task-append, find_task-delete}
use routing.Orchestrator.Store.Sqlite.{create_task, set_task_status, get_task, task_owner}

module _ {F : Type 0} where
  pub find_task-create :
      (id a : String) (key : Option String) (corr : String) (now : F) (db : Database F) (j : String)
      → find_task j (create_task id a key corr now db).tasks
        ≡ (if id == j then some (new_row id a key corr now) else find_task j db.tasks)
  unfolding create_task
  find_task-create id a key corr now db j = ground (
    arith,
    eq_iff id j,
    find_task-append j (keep (λ r. not (r.task_id == id)) db.tasks) (new_row id a key corr now),
    find_task-delete j id db.tasks,
  )

  -- Reads after a row was created, by case.
  pub get_task-new_row :
      (id a : String) (key : Option String) (corr : String) (now : F) (db : Database F)
      → let db' = create_task id a key corr now db in
        (get_task id a db' ≡ some (new_row id a key corr now))
        × ((b : String) → a ≢ b → get_task id b db' ≡ none)
        × (task_owner id db' ≡ some a)
        × ((j b : String) → id ≢ j → get_task j b db' ≡ get_task j b db)
  unfolding get_task task_owner
  get_task-new_row id a key corr now db =
      let found = find_task-create id a key corr now db in
      (
        ground (arith, found id, eq_refl id, eq_refl a),
        λ b ne. ground (arith, found id, eq_refl id, eq_iff a b),
        ground (arith, found id, eq_refl id),
        λ j b ne. ground (arith, found j, eq_iff id j),
      )

  -- A row that is created is read back by its account alone, as a row with status ACCEPTED and no
  -- result; every other account reads nothing, though the row has an owner; and what is read of every
  -- other task, and who owns it, is unchanged.
  pub get_task-create :
      (id a : String) (key : Option String) (corr : String) (now : F) (db : Database F)
      (j b : String)
      → let db' = create_task id a key corr now db in
        (get_task j b db' ≡ (
          if id == j
          then if a == b then some (new_row id a key corr now) else none
          else get_task j b db))
        × (task_owner j db' ≡ (if id == j then some a else task_owner j db))
  unfolding get_task task_owner
  get_task-create id a key corr now db j b =
      let found = find_task-create id a key corr now db j in
      (ground (arith, found, eq_iff id j), ground (arith, found, eq_iff id j))

  -- A status write shows in what the owner reads of that task, and only there: the columns of the
  -- status are overwritten, the cost only by a cost that is given, and nobody's access changes.
  pub get_task-set_status :
      (id : String) (st : Status) (e t p : Option String) (c : Option F) (now : F) (db : Database F)
      (j a : String)
      → get_task j a (set_task_status id st e t p c now db) ≡ (
          if id == j
          then Option.map (with_status st e t p c now) (get_task j a db)
          else get_task j a db)
  unfolding get_task set_task_status
  get_task-set_status id st e t p c now db j a =
      ground (
        arith,
        find_task-update j id (with_status st e t p c now) (λ r. refl) db.tasks,
        eq_iff id j,
      )
