-- ===== src/Tests/Stores.antt =====
-- The stores of orchestrator/store.py and orchestrator/postgres_store.py at concrete rows.
use routing.Prelude.{
  ℕ, ◌≡◌, refl, ◌⊎◌, ◌==◌, ◌&&◌, true, false, All, keep, none, some, List, [], ◌∷◌, ◌++◌, arith,
  if◌then◌else◌,
}
use routing.Prelude.Float.{Float, ticks, ticks-IsFloat, ticks-IsSum, ticks-AddsInOrder, eq}
use routing.Orchestrator.Store.Tables.{
  Charge, TaskRow, Database, StoreConfig, is_account, amounts, prune, sum_account, find_task,
  new_row,
}
use routing.Orchestrator.Store.Tables.Ids.{IsWellFormed}
use routing.Orchestrator.Store.Sqlite.{
  prune_db, reserve, settle, balance, register_idempotency, create_task, get_task,
}
use routing.Orchestrator.Store.Sqlite.Reserve.{reserve_lem}
use routing.Orchestrator.Store.Sqlite.Settle.{IsOther, settle_outcome, settle-reserve}
use routing.Orchestrator.Store.Sqlite.Invariant.{
  Write, reserves, settles, creates, apply_all, register_idempotency-again,
}
use routing.Orchestrator.Store.Sqlite.Admission.{run_reserves, reserve_no_slip}
use routing.Orchestrator.Store.Postgres.{PgDatabase}
use routing.Orchestrator.Store.Postgres
use routing.Orchestrator.Store.Postgres.Upsert.{create_task_existing}
use routing.Orchestrator.Store.Postgres.Agree.{Agree}
use routing.Orchestrator.Store.Postgres.Answers.{answers, pg_answers, pg_apply_all}
use routing.Orchestrator.Store.Postgres.Refines.{with_sum, postgres_refines}
use routing.Orchestrator.Store.Protocol.{sqlite, postgres}
use routing.Orchestrator.Store.Protocol.Laws.{IsStore}
use routing.Orchestrator.Store.Protocol.SqliteLaws.{sqlite-IsStore}
use routing.Orchestrator.Store.Protocol.PostgresLaws.{postgres-IsStore}

abbrev cfg : StoreConfig ℕ
cfg = record { threshold = 100; window = 60 }

abbrev charges : List (Charge ℕ)
charges =
    record { id = 1; account_id = "ada"; amount = 30; ts = 10 }
    ∷ record { id = 2; account_id = "bob"; amount = 50; ts = 20 }
    ∷ record { id = 4; account_id = "ada"; amount = 60; ts = 65 }
    ∷ []

abbrev tasks : List (TaskRow ℕ)
tasks = new_row "t1" "ada" (some "k1") "c1" 10 ∷ []

abbrev db : Database ℕ
db = record { usage_charges = charges; next_id = 5; idempotency = ("k1", "t1") ∷ []; tasks = tasks }

abbrev pg : PgDatabase ℕ
pg = record { db = db; account_locks = [] }

db-IsWellFormed : IsWellFormed db
db-IsWellFormed = record { ascends = (omega arith, (omega arith, (omega arith, omega arith))) }

reserves_prunes : (reserve cfg "ada" 40 80 db).0.balance ≡ 100
unfolding reserve prune sum_account prune_db
reserves_prunes = refl

reserve_lem_example :
    (sum_account "bob" (reserve cfg "ada" 40 80 db).1.usage_charges ≡ (
      if "ada" == "bob" then (reserve cfg "ada" 40 80 db).0.balance else sum_account "bob" charges))
    × ((reserve cfg "ada" 40 80 db).0.degraded
        ≡ ticks.le 100 (sum_account "ada" (reserve cfg "ada" 40 80 db).1.usage_charges))
reserve_lem_example = reserve_lem ticks-AddsInOrder cfg "ada" 40 80 db "bob"

settle_outcome_example :
    let cs = prune cfg "ada" 80 charges in
    let db' = (settle cfg "ada" 60 20 80 db).1 in
    (All (IsOther "ada" 60) cs × (db'.usage_charges ≡ cs))
    ⊎ ((before : List (Charge ℕ)) × (row : Charge ℕ) × (rest : List (Charge ℕ)) × (cs
          ≡ before ++ (row ∷ rest))
        × ((is_account "ada" row && eq row.amount 60) ≡ true)
        × All (IsOther "ada" 60) rest
        × (db'.usage_charges ≡ before ++ (record row { amount = 20 } ∷ rest)))
settle_outcome_example = settle_outcome cfg "ada" 60 20 80 db db-IsWellFormed

settle-reserve_example :
    let others = prune cfg "ada" 90 (prune cfg "ada" 80 charges) in
    let (balance, db') = settle cfg "ada" 40 7 90 (reserve cfg "ada" 40 80 db).1 in
    (db'.usage_charges
      ≡ others ++ (record { id = 5; account_id = "ada"; amount = 7; ts = 80 } ∷ []))
    × (balance ≡ ticks.sum (amounts (keep (is_account "ada") others) ++ (7 ∷ [])))
settle-reserve_example = settle-reserve cfg "ada" 40 7 80 90 db db-IsWellFormed refl refl

abbrev writes : List (Write ℕ)
writes = creates "t2" "bob" none "c2" 75 ∷ reserves "ada" 40 80 ∷ settles "ada" 40 7 90 ∷ []

register_idempotency-again_example :
    let (claim, db1) = register_idempotency "k2" "t2" db in
    let db2 = apply_all cfg writes db1 in
    register_idempotency "k2" "t3" db2 ≡ ((claim.0, false), db2)
register_idempotency-again_example =
    register_idempotency-again cfg writes "k2" "t2" "t3" db (tt, (tt, (tt, tt)))

reserve_no_slip_example :
    (reserve cfg "ada" 55 82 (
      run_reserves cfg
        (record { account_id = "bob"; cost = 5; now = 81 } ∷ [])
        (reserve cfg "ada" 45 80 db).1)).0.degraded
    ≡ true
reserve_no_slip_example =
    reserve_no_slip ticks-IsFloat ticks-IsSum cfg "ada" 45 55 80 82
      (record { account_id = "bob"; cost = 5; now = 81 } ∷ []) db (refl, (refl, (refl, tt))) refl
      ((refl, refl), tt) refl refl

find_t1 : find_task "t1" tasks ≡ some (new_row "t1" "ada" (some "k1") "c1" 10)
unfolding find_task
find_t1 = refl

create_task_existing_example :
    (Postgres.get_task "t1" "ada" (Postgres.create_task "t1" "ada" (some "k9") "c9" 50 pg)
      ≡ some (new_row "t1" "ada" (some "k9") "c9" 50))
    × (get_task "t1" "ada" (create_task "t1" "ada" (some "k9") "c9" 50 db)
        ≡ some (new_row "t1" "ada" (some "k9") "c9" 50))
create_task_existing_example =
    create_task_existing "t1" "ada" (some "k9") "c9" 50 pg (new_row "t1" "ada" (some "k1") "c1" 10)
      find_t1

db-Agree : Agree cfg 80 db db
db-Agree = record { rows = λ now h. refl; ids = refl; keys = refl; tasks_eq = refl }

no_t2 : find_task "t2" tasks ≡ none
unfolding find_task
no_t2 = refl

postgres_refines_example :
    let g : Float ℕ = with_sum ticks-IsFloat cfg ticks.sum in
    (answers cfg writes db ≡ pg_answers ⦃f = g⦄ cfg writes pg)
    × ((apply_all cfg writes db).tasks ≡ (pg_apply_all ⦃f = g⦄ cfg writes pg).db.tasks)
    × ((apply_all cfg writes db).idempotency ≡ (pg_apply_all ⦃f = g⦄ cfg writes pg).db.idempotency)
postgres_refines_example =
    postgres_refines ticks-IsFloat cfg ticks.sum writes 80 db pg (λ xs. refl) db-Agree
      (no_t2, (refl, (refl, tt)))

sqlite-IsStore_example : IsStore ℕ (Database ℕ) (sqlite cfg)
sqlite-IsStore_example = sqlite-IsStore cfg

postgres-IsStore_example : IsStore ℕ (PgDatabase ℕ) (postgres cfg)
postgres-IsStore_example = postgres-IsStore cfg
