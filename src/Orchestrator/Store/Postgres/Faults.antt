-- ===== src/Orchestrator/Store/Postgres/Faults.antt =====
-- The methods of `PostgresAtomicStore` (orchestrator/postgres_store.py) when statements may raise.
use mathlib.Core.Path.{subst}
use routing.Prelude.{
  ℕ, ◌≡◌, refl, sym, ◌∙◌, ap, inl, inr, String, Bool, true, false, Option, none, some, Option-cases,
}
use routing.Prelude.Dict.{lookup}
use routing.Prelude.Float.{Float}
use routing.Prelude.Result.{Result, ok, err}
use routing.Matrix.Model.{PyError}
use routing.Orchestrator.Store.Tables.{Status, Database, StoreConfig}
use routing.Orchestrator.Store.Postgres.{
  PgDatabase, lock_account, update_amount, reserve, settle, balance, register_idempotency,
  create_task, set_task_status, reset,
}
use routing.Orchestrator.Store.Transaction.{
  Tx, next, ◌>>=◌, ◌>>◌, Driver, Views, Opened, Committed, Atomic, IsDriver,
}
use routing.Orchestrator.Store.Transaction.Atomic.{
  then_do, IsStatements, Ended, IsTransaction, IsStatements-done, IsStatements-bind,
  IsTransaction-bind, IsStatements-execute, IsTransaction-commit,
}
use routing.Orchestrator.Store.Transaction.Closing.{end_ok, end_err, opened}
use routing.Orchestrator.Store.Postgres.Connection.{
  end_connection, with_connection, asserted, run_sql, lock, insert_key, claimed,
  register_idempotency_tx, create_task_tx, set_task_status_tx, delete_all, reset_tx, reserve_tx,
  update_row, settle_tx, balance_tx, setup_tx,
}

module _ {D C A : Type 0} (dr : Driver D C) (v : Views D C) (laws : IsDriver dr v)
    (F : D → A × D) where
  ended :
      (c c1 : C) (q : Result PyError A × C)
      → Opened v c (ok tt, c1)
      → Ended v F c1 q
      → Atomic v F c (end_connection dr q)
  ended c c1 (ok a, c2) o h = end_ok dr v laws F c c1 c2 a o h
  ended c c1 (err e, c2) o h =
      let (k, m) = laws.rollback_law c2 in
      end_err dr v laws F c c1 c2 (dr.rollback c2).1 e e o h k m

  -- A method with a transaction for its body applies the transaction whole or not at all, and the
  -- pool has its connection back.
  with_connection-Atomic :
      (body : Tx C A) → IsTransaction v F body → (c : C) → Atomic v F c (with_connection dr body c)
  unfolding with_connection ◌>>=◌
  with_connection-Atomic body tx c =
      opened v F (end_connection dr) body c (dr.open_conn c) (laws.open_law c)
        λ c1 o. ended c c1 (body c1) o (tx.at c1)

module _ {F C : Type 0} (dr : Driver (PgDatabase F) C) (v : Views (PgDatabase F) C)
    (laws : IsDriver dr v) where
  changes :
      (change : PgDatabase F → PgDatabase F)
      → IsStatements v (λ d. (tt, change d)) (run_sql dr change)
  changes change = IsStatements-execute dr v laws _

  locks : (a : String) → IsStatements v (λ d. (tt, lock_account a d)) (lock dr a)
  locks a = record { at = (IsStatements-bind v _ _ _ _ (changes _) λ u. changes _).at }

  assert-Ended :
      (row : Option String) (c : C) (q : Result PyError (Unit {0}) × C)
      → Committed v c q
      → Ended v
          (λ d. elim row [ some existing ↦ ((existing, false), d) | none ↦ (("", false), d) ])
          c
          (next (λ u. asserted row) q)
  unfolding next
  assert-Ended (some x) c (ok u, c') (k, w, n) = (ap (λ d. ((x, false), d)) (sym k), w ∙ sym k, n)
  assert-Ended none c (ok u, c') (k, w, n) = (inr k, n)
  assert-Ended row c (err e, c') (inl k, n) = (inl k, n)
  assert-Ended (some x) c (err e, c') (inr k, n) = (inr k, n)
  assert-Ended none c (err e, c') (inr k, n) = (inr k, n)

  assert-IsTransaction :
      (row : Option String)
      → IsTransaction v
          (λ d. elim row [ some existing ↦ ((existing, false), d) | none ↦ (("", false), d) ])
          (dr.commit >> asserted row)
  unfolding ◌>>=◌
  assert-IsTransaction row = record {
    at = λ c. assert-Ended row c (dr.commit c) (laws.commit_law c);
  }

  -- What the rest does after the insertion.
  rest_of : String → Option String → PgDatabase F → (String × Bool) × PgDatabase F
  rest_of key (some id) pg = ((id, true), pg)
  rest_of key none pg =
      let db : Database F = pg.db in
      elim (lookup key db.idempotency) [
        | some existing ↦ ((existing, false), pg)
        | none ↦ (("", false), pg)
      ]

  claimed-IsTransaction :
      (key : String) (row : Option String) → IsTransaction v (rest_of key row) (claimed dr key row)
  unfolding rest_of
  claimed-IsTransaction key (some id) = IsTransaction-commit dr v laws _
  claimed-IsTransaction key none = record {
    at =
        (IsTransaction-bind v _ _ _ _ (IsStatements-execute dr v laws _)
          λ existing. assert-IsTransaction existing).at;
  }

  register_eq :
      (key id : String) (pg : PgDatabase F)
      → rest_of key (insert_key key id pg).0 (insert_key key id pg).1
        ≡ register_idempotency key id pg
  unfolding register_idempotency rest_of
  register_eq key id pg = elim (Option-cases (lookup key pg.db.idempotency)) [
    | inl fresh ↦ rw (insert_key, fresh, rest_of, register_idempotency) refl
    | inr (x, old) ↦ rw (insert_key, old, rest_of, register_idempotency, old) refl
  ]

  pub register-Atomic :
      (key id : String) (c : C)
      → Atomic v (register_idempotency key id) c (register_idempotency_tx dr key id c)
  unfolding register_idempotency_tx
  register-Atomic key id c =
      subst (λ G. Atomic v G c (register_idempotency_tx dr key id c))
        (λ i pg. register_eq key id pg i)
        (with_connection-Atomic dr v laws (then_do (insert_key key id) (rest_of key)) _
          (IsTransaction-bind v _ _ _ _ (IsStatements-execute dr v laws (insert_key key id))
            λ row. claimed-IsTransaction key row)
          c)

  pub create-Atomic :
      (id a : String) (key : Option String) (corr : String) (now : F) (c : C)
      → Atomic v
          (λ d. (tt, create_task id a key corr now d))
          c
          (create_task_tx dr id a key corr now c)
  unfolding create_task_tx
  create-Atomic id a key corr now c =
      with_connection-Atomic dr v laws _ _
        (IsTransaction-bind v _ _ _ _ (changes _) λ u. IsTransaction-commit dr v laws _) c

  pub set_status-Atomic :
      (id : String) (st : Status) (e t p : Option String) (x : Option F) (now : F) (c : C)
      → Atomic v
          (λ d. (tt, set_task_status id st e t p x now d))
          c
          (set_task_status_tx dr id st e t p x now c)
  unfolding set_task_status_tx
  set_status-Atomic id st e t p x now c =
      with_connection-Atomic dr v laws _ _
        (IsTransaction-bind v _ _ _ _ (changes _) λ u. IsTransaction-commit dr v laws _) c

  delete_all-IsStatements :
      (who : Option String) → IsStatements v (λ d. (tt, reset who d)) (delete_all dr who)
  unfolding reset
  delete_all-IsStatements none = record {
    at =
        (IsStatements-bind v _ _ _ _ (changes _) λ u.
          IsStatements-bind v _ _ _ _ (changes _)
            λ u2. IsStatements-bind v _ _ _ _ (changes _) λ u3. changes _).at;
  }
  delete_all-IsStatements (some a) = record {
    at = (IsStatements-bind v _ _ _ _ (changes _) λ u. changes _).at;
  }

  pub reset-Atomic :
      (who : Option String) (c : C) → Atomic v (λ d. (tt, reset who d)) c (reset_tx dr who c)
  unfolding reset_tx
  reset-Atomic who c =
      with_connection-Atomic dr v laws _ _
        (IsTransaction-bind v _ _ _ _ (delete_all-IsStatements who)
          λ u. IsTransaction-commit dr v laws _)
        c

  pub setup-Atomic : (c : C) → Atomic v (λ d. (tt, d)) c (setup_tx dr c)
  unfolding setup_tx
  setup-Atomic c =
      with_connection-Atomic dr v laws _ _
        (IsTransaction-bind v _ _ _ _ (changes _) λ u. IsTransaction-commit dr v laws _) c

module _ {F C : Type 0} ⦃f : Float F⦄ (dr : Driver (PgDatabase F) C) (v : Views (PgDatabase F) C)
    (laws : IsDriver dr v) (cfg : StoreConfig F) where
  pub reserve-Atomic :
      (a : String) (x now : F) (c : C)
      → Atomic v (reserve cfg a x now) c (reserve_tx dr cfg a x now c)
  unfolding reserve reserve_tx
  reserve-Atomic a x now c =
      with_connection-Atomic dr v laws (reserve cfg a x now) _
        (IsTransaction-bind v _ _ _ _ (locks dr v laws a) λ u.
          IsTransaction-bind v _ _ _ _ (changes dr v laws _) λ u2.
            IsTransaction-bind v _ _ _ _ (IsStatements-execute dr v laws _) λ old.
              IsTransaction-bind v _ _ _ _ (changes dr v laws _)
                λ u3. IsTransaction-commit dr v laws _)
        c

  update_row-IsStatements :
      (row : Option ℕ) (x : F)
      → IsStatements v (λ d. (tt, update_amount row x d)) (update_row dr cfg row x)
  update_row-IsStatements none x = IsStatements-done v _
  update_row-IsStatements (some i) x = changes dr v laws _

  pub settle-Atomic :
      (a : String) (r x now : F) (c : C)
      → Atomic v (settle cfg a r x now) c (settle_tx dr cfg a r x now c)
  unfolding settle settle_tx
  settle-Atomic a r x now c =
      with_connection-Atomic dr v laws (settle cfg a r x now) _
        (IsTransaction-bind v _ _ _ _ (locks dr v laws a) λ u.
          IsTransaction-bind v _ _ _ _ (changes dr v laws _) λ u2.
            IsTransaction-bind v _ _ _ _ (IsStatements-execute dr v laws _) λ row.
              IsTransaction-bind v _ _ _ _ (update_row-IsStatements row x) λ u3.
                IsTransaction-bind v _ _ _ _ (IsStatements-execute dr v laws _)
                  λ sum. IsTransaction-commit dr v laws _)
        c

  pub balance-Atomic :
      (a : String) (now : F) (c : C) → Atomic v (balance cfg a now) c (balance_tx dr cfg a now c)
  unfolding balance balance_tx
  balance-Atomic a now c =
      with_connection-Atomic dr v laws (balance cfg a now) _
        (IsTransaction-bind v _ _ _ _ (changes dr v laws _) λ u.
          IsTransaction-bind v _ _ _ _ (IsStatements-execute dr v laws _)
            λ sum. IsTransaction-commit dr v laws _)
        c
