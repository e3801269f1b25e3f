-- ===== src/Orchestrator/Store/Sqlite/Faults.antt =====
-- The methods of `SqliteAtomicStore` (orchestrator/store.py) when statements may raise.
use routing.Prelude.{ℕ, ◌≡◌, refl, String, true, false, Option, none, some}
use routing.Prelude.Dict.{insert}
use routing.Prelude.Float.{Float}
use routing.Prelude.Result.{Result, ok, err}
use routing.Matrix.Model.{PyError}
use routing.Orchestrator.Store.Tables.{Status, Database, StoreConfig}
use routing.Orchestrator.Store.Sqlite.{
  reserve, settle, revalue, register_idempotency, create_task, set_task_status, reset,
}
use routing.Orchestrator.Store.Transaction.{Tx, ◌>>=◌, Driver, Views, Opened, Atomic, IsDriver}
use routing.Orchestrator.Store.Transaction.Atomic.{
  IsStatements, Ended, IsTransaction, IsStatements-done, IsStatements-bind, IsTransaction-bind,
  IsStatements-execute, IsTransaction-commit,
}
use routing.Orchestrator.Store.Transaction.Closing.{end_ok, end_err, opened}
use routing.Orchestrator.Store.Sqlite.Session.{
  rolled_back, end_session, in_session, end_simple, in_simple_session, run_sql, claim_key,
  register_idempotency_tx, create_task_tx, set_task_status_tx, delete_all, reset_tx, reserve_tx,
  update_row, settle_tx, setup_tx,
}

module _ {D C A : Type 0} (dr : Driver D C) (v : Views D C) (laws : IsDriver dr v)
    (F : D → A × D) where
  rolled :
      (c c1 c2 : C) (e : PyError) (q : Result PyError (Unit {0}) × C)
      → Opened v c (ok tt, c1)
      → Ended v F c1 (err e, c2)
      → v.committed q.1 ≡ v.committed c2
      → v.in_use q.1 ≡ v.in_use c2
      → Atomic v F c (rolled_back dr e q)
  rolled c c1 c2 e (ok u, t) o h k m = end_err dr v laws F c c1 c2 t e e o h k m
  rolled c c1 c2 e (err x, t) o h k m = end_err dr v laws F c c1 c2 t e x o h k m

  ended :
      (c c1 : C) (q : Result PyError A × C)
      → Opened v c (ok tt, c1)
      → Ended v F c1 q
      → Atomic v F c (end_session dr q)
  ended c c1 (ok a, c2) o h = end_ok dr v laws F c c1 c2 a o h
  ended c c1 (err e, c2) o h =
      let (k, m) = laws.rollback_law c2 in rolled c c1 c2 e (dr.rollback c2) o h k m

  Ended-simply :
      (c c1 : C) (q : Result PyError A × C)
      → Opened v c (ok tt, c1)
      → Ended v F c1 q
      → Atomic v F c (end_simple dr q)
  Ended-simply c c1 (ok a, c2) o h = end_ok dr v laws F c c1 c2 a o h
  Ended-simply c c1 (err e, c2) o h = end_err dr v laws F c c1 c2 c2 e e o h refl refl

  -- A method with a transaction for its body applies the transaction whole or not at all.
  in_session-Atomic :
      (body : Tx C A) → IsTransaction v F body → (c : C) → Atomic v F c (in_session dr body c)
  unfolding in_session ◌>>=◌
  in_session-Atomic body tx c =
      opened v F (end_session dr) body c (dr.open_conn c) (laws.open_law c)
        λ c1 o. ended c c1 (body c1) o (tx.at c1)

  in_simple_session-Atomic :
      (body : Tx C A)
      → IsTransaction v F body
      → (c : C) → Atomic v F c (in_simple_session dr body c)
  unfolding in_simple_session ◌>>=◌
  in_simple_session-Atomic body tx c =
      opened v F (end_simple dr) body c (dr.open_conn c) (laws.open_law c)
        λ c1 o. Ended-simply c c1 (body c1) o (tx.at c1)

module _ {F C : Type 0} (dr : Driver (Database F) C) (v : Views (Database F) C)
    (laws : IsDriver dr v) where
  -- A statement without an answer.
  changes :
      (change : Database F → Database F) → IsStatements v (λ d. (tt, change d)) (run_sql dr change)
  changes change = IsStatements-execute dr v laws _

  claim_key-IsTransaction :
      (key id : String) (row : Option String)
      → IsTransaction v
          (λ d. elim row [
            | some existing ↦ ((existing, false), d)
            | none ↦ ((id, true), record d { idempotency = insert key id d.idempotency })
          ])
          (claim_key dr key id row)
  claim_key-IsTransaction key id (some existing) = IsTransaction-commit dr v laws _
  claim_key-IsTransaction key id none =
      IsTransaction-bind v _ _ _ _ (changes _) λ u. IsTransaction-commit dr v laws _

  pub register-Atomic :
      (key id : String) (c : C)
      → Atomic v (register_idempotency key id) c (register_idempotency_tx dr key id c)
  unfolding register_idempotency register_idempotency_tx
  register-Atomic key id c =
      in_session-Atomic dr v laws (register_idempotency key id) _
        (IsTransaction-bind v _ _ _ _ (changes _) λ u.
          IsTransaction-bind v _ _ _ _ (IsStatements-execute dr v laws _)
            λ row. claim_key-IsTransaction key id row)
        c

  pub create-Atomic :
      (id a : String) (key : Option String) (corr : String) (now : F) (c : C)
      → Atomic v
          (λ d. (tt, create_task id a key corr now d))
          c
          (create_task_tx dr id a key corr now c)
  unfolding create_task_tx
  create-Atomic id a key corr now c =
      in_simple_session-Atomic dr v laws _ _
        (IsTransaction-bind v _ _ _ _ (changes _) λ u. IsTransaction-commit dr v laws _) c

  pub set_status-Atomic :
      (id : String) (st : Status) (e t p : Option String) (x : Option F) (now : F) (c : C)
      → Atomic v
          (λ d. (tt, set_task_status id st e t p x now d))
          c
          (set_task_status_tx dr id st e t p x now c)
  unfolding set_task_status_tx
  set_status-Atomic id st e t p x now c =
      in_simple_session-Atomic dr v laws _ _
        (IsTransaction-bind v _ _ _ _ (changes _) λ u. IsTransaction-commit dr v laws _) c

  delete_all-IsStatements :
      (who : Option String) → IsStatements v (λ d. (tt, reset who d)) (delete_all dr who)
  unfolding reset
  delete_all-IsStatements none = record {
    at =
        (IsStatements-bind v _ _ _ _ (changes _)
          λ u. IsStatements-bind v _ _ _ _ (changes _) λ u2. changes _).at;
  }
  delete_all-IsStatements (some a) = record {
    at = (IsStatements-bind v _ _ _ _ (changes _) λ u. changes _).at;
  }

  pub reset-Atomic :
      (who : Option String) (c : C) → Atomic v (λ d. (tt, reset who d)) c (reset_tx dr who c)
  unfolding reset_tx
  reset-Atomic who c =
      in_session-Atomic dr v laws _ _
        (IsTransaction-bind v _ _ _ _ (changes _) λ u.
          IsTransaction-bind v _ _ _ _ (delete_all-IsStatements who)
            λ u2. IsTransaction-commit dr v laws _)
        c

  pub setup-Atomic : (c : C) → Atomic v (λ d. (tt, d)) c (setup_tx dr c)
  unfolding setup_tx
  setup-Atomic c =
      in_simple_session-Atomic dr v laws _ _
        (IsTransaction-bind v _ _ _ _ (changes _) λ u. IsTransaction-commit dr v laws _) c

module _ {F C : Type 0} ⦃f : Float F⦄ (dr : Driver (Database F) C) (v : Views (Database F) C)
    (laws : IsDriver dr v) (cfg : StoreConfig F) where
  pub reserve-Atomic :
      (a : String) (x now : F) (c : C)
      → Atomic v (reserve cfg a x now) c (reserve_tx dr cfg a x now c)
  unfolding reserve reserve_tx
  reserve-Atomic a x now c =
      in_session-Atomic dr v laws (reserve cfg a x now) _
        (IsTransaction-bind v _ _ _ _ (IsStatements-execute dr v laws _) λ u.
          IsTransaction-bind v _ _ _ _ (IsStatements-execute dr v laws _) λ u2.
            IsTransaction-bind v _ _ _ _ (IsStatements-execute dr v laws _) λ balance.
              IsTransaction-bind v _ _ _ _ (IsStatements-execute dr v laws _)
                λ u3. IsTransaction-commit dr v laws _)
        c

  update_row-IsStatements :
      (row : Option ℕ) (x : F)
      → IsStatements v (λ d. (tt, revalue row x d)) (update_row dr cfg row x)
  update_row-IsStatements none x = IsStatements-done v _
  update_row-IsStatements (some i) x = changes dr v laws _

  pub settle-Atomic :
      (a : String) (r x now : F) (c : C)
      → Atomic v (settle cfg a r x now) c (settle_tx dr cfg a r x now c)
  unfolding settle settle_tx
  settle-Atomic a r x now c =
      in_session-Atomic dr v laws (settle cfg a r x now) _
        (IsTransaction-bind v _ _ _ _ (changes dr v laws _) λ u.
          IsTransaction-bind v _ _ _ _ (changes dr v laws _) λ u2.
            IsTransaction-bind v _ _ _ _ (IsStatements-execute dr v laws _) λ row.
              IsTransaction-bind v _ _ _ _ (update_row-IsStatements row x) λ u3.
                IsTransaction-bind v _ _ _ _ (IsStatements-execute dr v laws _)
                  λ balance. IsTransaction-commit dr v laws _)
        c
