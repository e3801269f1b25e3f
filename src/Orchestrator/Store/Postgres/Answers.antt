-- ===== src/Orchestrator/Store/Postgres/Answers.antt =====
-- What the two stores answer to a sequence of calls, and which calls are compared.
use routing.Prelude.{◌≡◌, String, Bool, none, List, [], ◌∷◌}
use routing.Prelude.Float.{Float, ◌≼◌}
use routing.Orchestrator.Store.Tables.{Database, StoreConfig, Reservation, find_task}
use routing.Orchestrator.Store.Sqlite
use routing.Orchestrator.Store.Sqlite.{prune_db, revalue}
use routing.Orchestrator.Store.Sqlite.Invariant.{
  Write, reserves, settles, balances, registers, creates, marks, resets, apply,
}
use routing.Orchestrator.Store.Postgres.{
  PgDatabase, reserve, settle, balance, register_idempotency, create_task, set_task_status, reset,
}

-- What a call returns.
pub data Answer (F : Type 0) : Type 0 where
  reserved : Reservation F → Answer F
  amount : F → Answer F
  claimed : String × Bool → Answer F
  done : Answer F

module _ {F : Type 0} ⦃f : Float F⦄ (cfg : StoreConfig F) where
  -- The call on Postgres.
  unfoldable pub pg_apply : Write F → PgDatabase F → PgDatabase F
  pg_apply (reserves a cost now) pg = (reserve cfg a cost now pg).1
  pg_apply (settles a r x now) pg = (settle cfg a r x now pg).1
  pg_apply (balances a now) pg = (balance cfg a now pg).1
  pg_apply (registers key id) pg = (register_idempotency key id pg).1
  pg_apply (creates id a key corr now) pg = create_task id a key corr now pg
  pg_apply (marks id st e t p c now) pg = set_task_status id st e t p c now pg
  pg_apply (resets a) pg = reset a pg

  unfoldable pub answer : Write F → Database F → Answer F
  answer (reserves a cost now) db = reserved (Sqlite.reserve cfg a cost now db).0
  answer (settles a r x now) db = amount (Sqlite.settle cfg a r x now db).0
  answer (balances a now) db = amount (Sqlite.balance cfg a now db).0
  answer (registers key id) db = claimed (Sqlite.register_idempotency key id db).0
  answer _ db = done

  unfoldable pub pg_answer : Write F → PgDatabase F → Answer F
  pg_answer (reserves a cost now) pg = reserved (reserve cfg a cost now pg).0
  pg_answer (settles a r x now) pg = amount (settle cfg a r x now pg).0
  pg_answer (balances a now) pg = amount (balance cfg a now pg).0
  pg_answer (registers key id) pg = claimed (register_idempotency key id pg).0
  pg_answer _ pg = done

  unfoldable pub answers : List (Write F) → Database F → List (Answer F)
  answers [] db = []
  answers (w ∷ ws) db = answer w db ∷ answers ws (apply cfg w db)

  unfoldable pub pg_answers : List (Write F) → PgDatabase F → List (Answer F)
  pg_answers [] pg = []
  pg_answers (w ∷ ws) pg = pg_answer w pg ∷ pg_answers ws (pg_apply w pg)

  -- The calls one after the other.
  unfoldable pub pg_apply_all : List (Write F) → PgDatabase F → PgDatabase F
  pg_apply_all [] pg = pg
  pg_apply_all (w ∷ ws) pg = pg_apply_all ws (pg_apply w pg)

  -- The time up to which a call has looked at the rows.
  abbrev pub clock_after : Write F → F → F
  clock_after (reserves a cost now) t = now
  clock_after (settles a r x now) t = now
  clock_after (balances a now) t = now
  clock_after _ t = t

  -- A call at a time not before `t`. A task is created under an id that has no row, and the
  -- tables are not reset.
  abbrev pub Fits : Write F → F → Database F → Type 0
  Fits (reserves a cost now) t db = t ≼ now
  Fits (settles a r x now) t db = t ≼ now
  Fits (balances a now) t db = t ≼ now
  Fits (creates id a key corr now) t db = find_task id db.tasks ≡ none
  Fits (resets a) t db = ⊥
  Fits _ t db = Unit

  abbrev pub FitsAll : List (Write F) → F → Database F → Type 0
  FitsAll [] t db = Unit
  FitsAll (w ∷ ws) t db = Fits w t db × FitsAll ws (clock_after w t) (apply cfg w db)
