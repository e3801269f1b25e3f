-- ===== src/Orchestrator/Store/Tables/Find.antt =====
-- Looking up a row of `tasks` after a write.
use routing.Prelude.{
  Bool-cases, inl, inr, ◌≡◌, refl, String, ◌==◌, eq_iff, not, none, some, List, [], ◌∷◌, ◌++◌,
  arith, keep, if◌then◌else◌,
}
use mathlib.Core.Option
use routing.Orchestrator.Store.Tables.{TaskRow, find_task, update_task}

module _ {F : Type 0} where
  -- A write that keeps the ids of rows.
  pub find_task-id :
      (id : String) (rows : List (TaskRow F)) (r : TaskRow F)
      → find_task id rows ≡ some r
      → r.task_id ≡ id
  unfolding find_task
  find_task-id id [] r h = absurd (cc)
  find_task-id id (q ∷ rows) r h = elim (Bool-cases (q.task_id == id)) [
    | inl own ↦
        let same : some q ≡ some r = rw own at h in ground (arith, same, eq_iff q.task_id id)
    | inr other ↦ find_task-id id rows r (rw other at h)
  ]

  pub find_task-update :
      (id j : String) (write : TaskRow F → TaskRow F)
      → ((r : TaskRow F) → (write r).task_id ≡ r.task_id)
      → (rows : List (TaskRow F))
      → find_task id (update_task j write rows)
        ≡ (if j == id then Option.map write (find_task id rows) else find_task id rows)
  unfolding find_task update_task
  find_task-update id j write keeps [] = ground arith
  find_task-update id j write keeps (r ∷ rows) = ground (
    arith,
    keeps r,
    eq_iff r.task_id j,
    eq_iff j id,
    eq_iff r.task_id id,
    find_task-update id j write keeps rows,
  )

  -- A row at the end is found where no row before it is.
  pub find_task-append :
      (id : String) (rows : List (TaskRow F)) (r : TaskRow F)
      → find_task id (rows ++ (r ∷ [])) ≡ elim (find_task id rows) [
        | none ↦ if r.task_id == id then some r else none
        | some q ↦ some q
      ]
  unfolding find_task
  find_task-append id [] r = refl
  find_task-append id (q ∷ rows) r = ground (arith, find_task-append id rows r)

  pub find_task-delete :
      (id j : String) (rows : List (TaskRow F))
      → find_task id (keep (λ r. not (r.task_id == j)) rows)
        ≡ (if j == id then none else find_task id rows)
  unfolding find_task
  find_task-delete id j [] = ground arith
  find_task-delete id j (r ∷ rows) =
      ground
        (arith, eq_iff r.task_id j, eq_iff j id, eq_iff r.task_id id, find_task-delete id j rows)
