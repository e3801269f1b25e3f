-- ===== src/Orchestrator/Store/Postgres/Refines.antt =====
-- `PostgresAtomicStore` (orchestrator/postgres_store.py) beside `SqliteAtomicStore`
-- (orchestrator/store.py), where their SUMs agree.
use mathlib.Core.Path.{fun_ext, subst}
use routing.Prelude.{◌≡◌, refl, sym, ◌∙◌, ap, String, ◌==◌, not, List, [], ◌∷◌, ◌++◌, keep, arith}
use routing.Prelude.Float.{Float, IsFloat, ◌≼◌}
use routing.Orchestrator.Store.Tables.{
  Database, StoreConfig, find_task, latest, update_task, with_status, new_row,
}
use routing.Orchestrator.Store.Sqlite
use routing.Orchestrator.Store.Sqlite.{prune_db, revalue}
use routing.Orchestrator.Store.Sqlite.Invariant.{
  Write, reserves, settles, balances, registers, creates, marks, resets, apply, apply_all,
}
use routing.Orchestrator.Store.Postgres.{PgDatabase, set_task_status}
use routing.Orchestrator.Store.Postgres.Upsert.{
  reserve_same, settle_same, balance_same, register_same, create_same,
}
use routing.Orchestrator.Store.Postgres.Agree.{
  Agree, live, Agree-prune, Agree-add, Agree-revalue, Agree-prune_right, sum-Agree, latest-Agree,
  revalued-Agree,
}
use routing.Orchestrator.Store.Postgres.Answers.{
  reserved, amount, claimed, pg_apply, pg_apply_all, answer, pg_answer, answers, pg_answers,
  clock_after, Fits, FitsAll,
}

module _ {F : Type 0} ⦃f : Float F⦄ (laws : IsFloat F) (cfg : StoreConfig F) where
  reserve-Agree :
      (a : String) (cost t now : F) (d e : Database F)
      → t ≼ now
      → Agree cfg t d e
      → ((Sqlite.reserve cfg a cost now d).0 ≡ (Sqlite.reserve cfg a cost now e).0)
        × Agree cfg now (Sqlite.reserve cfg a cost now d).1 (Sqlite.reserve cfg a cost now e).1
  unfolding Sqlite.reserve
  reserve-Agree a cost t now d e h g = (
    ap
        (λ (s : F). record {
          account_id = a;
          degraded = f.le cfg.threshold (f.add s cost);
          projected_cost = cost;
          balance = f.add s cost;
        })
        (sum-Agree laws cfg a t now d e h g),
    Agree-add laws cfg a cost now now _ _ (Agree-prune laws cfg a t now d e h g),
  )

  settle-Agree :
      (a : String) (r x t now : F) (d e : Database F)
      → t ≼ now
      → Agree cfg t d e
      → ((Sqlite.settle cfg a r x now d).0 ≡ (Sqlite.settle cfg a r x now e).0)
        × Agree cfg now (Sqlite.settle cfg a r x now d).1 (Sqlite.settle cfg a r x now e).1
  unfolding Sqlite.settle
  settle-Agree a r x t now d e h g =
      let row = latest a r (prune_db cfg a now e).usage_charges in
      rw (latest-Agree laws cfg a r t now d e h g) (
        revalued-Agree laws cfg a t now row x d e h g,
        Agree-revalue laws cfg row x now _ _ (Agree-prune laws cfg a t now d e h g),
      )

  balance-Agree :
      (a : String) (t now : F) (d e : Database F)
      → t ≼ now
      → Agree cfg t d e
      → ((Sqlite.balance cfg a now d).0 ≡ (Sqlite.balance cfg a now e).0)
        × ((Sqlite.balance cfg a now d).1 ≡ d)
  unfolding Sqlite.balance
  balance-Agree a t now d e h g = (sum-Agree laws cfg a t now d e h g, refl)

  register_parts :
      (key id : String) (db : Database F)
      → let db' = (Sqlite.register_idempotency key id db).1 in
        (db'.usage_charges ≡ db.usage_charges) × (db'.next_id ≡ db.next_id) × (db'.tasks ≡ db.tasks)
  unfolding Sqlite.register_idempotency
  register_parts key id db = (ground arith, ground arith, ground arith)

  register_keys :
      (key id : String) (d e : Database F)
      → d.idempotency ≡ e.idempotency
      → ((Sqlite.register_idempotency key id d).0 ≡ (Sqlite.register_idempotency key id e).0)
        × ((Sqlite.register_idempotency key id d).1.idempotency
            ≡ (Sqlite.register_idempotency key id e).1.idempotency)
  unfolding Sqlite.register_idempotency
  register_keys key id d e h = (ground arith, ground arith)

  register-Agree :
      (key id : String) (t : F) (d e : Database F)
      → Agree cfg t d e
      → ((Sqlite.register_idempotency key id d).0 ≡ (Sqlite.register_idempotency key id e).0)
        × Agree cfg t
            (Sqlite.register_idempotency key id d).1
            (Sqlite.register_idempotency key id e).1
  register-Agree key id t d e g =
      let (dr, dn, dt) = register_parts key id d in
      let (er, en, et) = register_parts key id e in
      let (same, keys) = register_keys key id d e g.keys in
      (
        same,
        record {
          rows = λ now h. ap (live cfg now) dr ∙ g.rows now h ∙ sym (ap (live cfg now) er);
          ids = dn ∙ g.ids ∙ sym en;
          keys = keys;
          tasks_eq = dt ∙ g.tasks_eq ∙ sym et;
        },
      )

  -- One call: the answers are equal, and the databases agree from the call's time on.
  step-Agree :
      (w : Write F) (t : F) (d : Database F) (pg : PgDatabase F)
      → Agree cfg t d pg.db
      → Fits cfg w t d
      → (answer cfg w d ≡ pg_answer cfg w pg)
        × Agree cfg (clock_after cfg w t) (apply cfg w d) (pg_apply cfg w pg).db
  unfolding answer pg_answer pg_apply apply
  step-Agree (reserves a cost now) t d pg g h =
      let (same, after) = reserve-Agree a cost t now d pg.db h g in
      let (pg0, pg1) = reserve_same cfg a cost now pg in
      (ap reserved (same ∙ sym pg0), rw pg1 after)
  step-Agree (settles a r x now) t d pg g h =
      let (same, after) = settle-Agree a r x t now d pg.db h g in
      let (pg0, pg1) = settle_same cfg a r x now pg in (ap amount (same ∙ sym pg0), rw pg1 after)
  step-Agree (balances a now) t d pg g h =
      let (pg0, pg1) = balance_same cfg a now pg in
      let (same, kept) = balance-Agree a t now d pg.db h g in
      (
        ap amount (same ∙ sym pg0),
        rw pg1 (rw kept (Agree-prune_right laws cfg a t now d pg.db h g)),
      )
  step-Agree (registers key id) t d pg g h =
      let (same, after) = register-Agree key id t d pg.db g in
      let (pg0, pg1) = register_same key id pg in (ap claimed (same ∙ sym pg0), rw pg1 after)
  step-Agree (creates id a key corr now) t d pg g h = (
    refl,
    rw (create_same id a key corr now pg (ap (find_task id) (sym g.tasks_eq) ∙ h)) (
        unfold Sqlite.create_task in
        record {
          rows = g.rows;
          ids = g.ids;
          keys = g.keys;
          tasks_eq =
              ap (λ ts. keep (λ r. not (r.task_id == id)) ts ++ (new_row id a key corr now ∷ []))
                g.tasks_eq;
        }),
  )
  step-Agree (marks id st e t' p c now) t d pg g h = (
    refl,
    unfold Sqlite.set_task_status set_task_status in
        record {
          rows = g.rows;
          ids = g.ids;
          keys = g.keys;
          tasks_eq = ap (update_task id (with_status st e t' p c now)) g.tasks_eq;
        },
  )
  step-Agree (resets a) t d pg g h = absurd h

  answers-Agree :
      (ws : List (Write F)) (t : F) (d : Database F) (pg : PgDatabase F)
      → Agree cfg t d pg.db
      → FitsAll cfg ws t d
      → (answers cfg ws d ≡ pg_answers cfg ws pg)
        × ((t' : F) × Agree cfg t' (apply_all cfg ws d) (pg_apply_all cfg ws pg).db)
  unfolding answers pg_answers apply_all pg_apply_all
  answers-Agree [] t d pg g h = (refl, (t, g))
  answers-Agree (w ∷ ws) t d pg g h =
      let (same, after) = step-Agree w t d pg g h.0 in
      let (rest, last) =
        answers-Agree ws (clock_after cfg w t) (apply cfg w d) (pg_apply cfg w pg) after h.1 in
      (λ i. same i ∷ rest i, last)

module _ {F : Type 0} ⦃f : Float F⦄ (laws : IsFloat F) (cfg : StoreConfig F) where
  -- The database of Postgres with a SUM of its own.
  abbrev pub with_sum : (List F → F) → Float F
  with_sum sum = record f { sum = sum }

  refines_same :
      (ws : List (Write F)) (t : F) (d : Database F) (pg : PgDatabase F)
      → Agree cfg t d pg.db
      → FitsAll cfg ws t d
      → (answers cfg ws d ≡ pg_answers cfg ws pg)
        × ((apply_all cfg ws d).tasks ≡ (pg_apply_all cfg ws pg).db.tasks)
        × ((apply_all cfg ws d).idempotency ≡ (pg_apply_all cfg ws pg).db.idempotency)
  refines_same ws t d pg g h =
      let (same, (t', last)) = answers-Agree laws cfg ws t d pg g h in
      (same, last.tasks_eq, last.keys)

  -- If the two engines' SUM give the same for the same amounts, then from databases that agree, under
  -- calls whose times do not run backwards, that create tasks under new ids only and do not reset the
  -- tables, the two backends give the same answers, and leave the same rows of tasks and the same
  -- keys.
  pub postgres_refines :
      (pg_sum : List F → F) (ws : List (Write F)) (t : F) (d : Database F) (pg : PgDatabase F)
      → ((xs : List F) → pg_sum xs ≡ f.sum xs)
      → Agree cfg t d pg.db
      → FitsAll cfg ws t d
      → (answers cfg ws d ≡ pg_answers ⦃f = with_sum pg_sum⦄ cfg ws pg)
        × ((apply_all cfg ws d).tasks ≡ (pg_apply_all ⦃f = with_sum pg_sum⦄ cfg ws pg).db.tasks)
        × ((apply_all cfg ws d).idempotency
            ≡ (pg_apply_all ⦃f = with_sum pg_sum⦄ cfg ws pg).db.idempotency)
  postgres_refines pg_sum ws t d pg sums g h =
      subst
        (λ (s : List F → F).
          (answers cfg ws d ≡ pg_answers ⦃f = with_sum s⦄ cfg ws pg)
          × ((apply_all cfg ws d).tasks ≡ (pg_apply_all ⦃f = with_sum s⦄ cfg ws pg).db.tasks)
          × ((apply_all cfg ws d).idempotency
              ≡ (pg_apply_all ⦃f = with_sum s⦄ cfg ws pg).db.idempotency))
        (sym (fun_ext sums)) (refines_same ws t d pg g h)
