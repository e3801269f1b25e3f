-- ===== src/Orchestrator/Store/Transaction/Atomic.antt =====
-- A method's statements make up one function on the tables, and its commit applies that function whole
-- or not at all.
use routing.Prelude.{◌≡◌, refl, sym, ◌∙◌, ap, ◌⊎◌, inl, inr}
use routing.Prelude.Result.{Result, ok, err}
use routing.Matrix.Model.{PyError}
use routing.Orchestrator.Store.Transaction.{
  Tx, next, ◌>>=◌, ◌>>◌, done, Driver, Views, Stated, Committed, IsDriver,
}

module _ {D A B : Type 0} where
  -- One function on the tables after another.
  abbrev pub then_do : (D → A × D) → (A → D → B × D) → D → B × D
  then_do F G d = G (F d).0 (F d).1

module _ {D C : Type 0} (v : Views D C) where
  -- Statements that raise leave what others see.
  pub record IsStatements {A : Type 0} (F : D → A × D) (m : Tx C A) : Type 0 where
    pub at : (c : C) → Stated v F c (m c)

  module _ {A : Type 0} where
    -- Statements up to a commit.
    abbrev pub Ended : (D → A × D) → C → Result PyError A × C → Type 0
    Ended F c (ok a, c') =
        (F (v.working c) ≡ (a, v.committed c'))
        × (v.working c' ≡ v.committed c')
        × (v.in_use c' ≡ v.in_use c)
    Ended F c (err e, c') =
        ((v.committed c' ≡ v.committed c) ⊎ (v.committed c' ≡ (F (v.working c)).1))
        × (v.in_use c' ≡ v.in_use c)

  pub record IsTransaction {A : Type 0} (F : D → A × D) (m : Tx C A) : Type 0 where
    pub at : (c : C) → Ended F c (m c)

  pub IsStatements-done : {A : Type 0} (a : A) → IsStatements (λ d. (a, d)) (done a)
  IsStatements-done a = record { at = λ c. (refl, refl, refl) }

module _ {D C A B : Type 0} (v : Views D C) (F : D → A × D) (G : A → D → B × D) where
  shift-Stated :
      (c c1 : C) (a : A) (q : Result PyError B × C)
      → Stated v F c (ok a, c1)
      → Stated v (G a) c1 q
      → Stated v (then_do F G) c q
  shift-Stated c c1 a (ok b, c2) (e, k, u) (e2, k2, u2) =
      (ap (λ p. G p.0 p.1) e ∙ e2, k2 ∙ k, u2 ∙ u)
  shift-Stated c c1 a (err x, c2) (e, k, u) (k2, u2) = (k2 ∙ k, u2 ∙ u)

  bind-Stated :
      (c : C) (g : A → Tx C B) (q : Result PyError A × C)
      → Stated v F c q
      → ((a : A) → IsStatements v (G a) (g a))
      → Stated v (then_do F G) c (next g q)
  unfolding next
  bind-Stated c g (ok a, c1) h more = shift-Stated c c1 a (g a c1) h ((more a).at c1)
  bind-Stated c g (err e, c1) h more = h

  pub IsStatements-bind :
      (m : Tx C A) (g : A → Tx C B)
      → IsStatements v F m
      → ((a : A) → IsStatements v (G a) (g a))
      → IsStatements v (then_do F G) (m >>= g)
  unfolding ◌>>=◌
  IsStatements-bind m g first more = record { at = λ c. bind-Stated c g (m c) (first.at c) more }

  shift-Ended :
      (c c1 : C) (a : A) (q : Result PyError B × C)
      → Stated v F c (ok a, c1)
      → Ended v (G a) c1 q
      → Ended v (then_do F G) c q
  shift-Ended c c1 a (ok b, c2) (e, k, u) (e2, k2, u2) = (ap (λ p. G p.0 p.1) e ∙ e2, k2, u2 ∙ u)
  shift-Ended c c1 a (err x, c2) (e, k, u) (inl kept, u2) = (inl (kept ∙ k), u2 ∙ u)
  shift-Ended c c1 a (err x, c2) (e, k, u) (inr whole, u2) =
      (inr (whole ∙ ap (λ p. (G p.0 p.1).1) (sym e)), u2 ∙ u)

  bind-Ended :
      (c : C) (g : A → Tx C B) (q : Result PyError A × C)
      → Stated v F c q
      → ((a : A) → IsTransaction v (G a) (g a))
      → Ended v (then_do F G) c (next g q)
  unfolding next
  bind-Ended c g (ok a, c1) h more = shift-Ended c c1 a (g a c1) h ((more a).at c1)
  bind-Ended c g (err e, c1) (k, u) more = (inl k, u)

  -- Statements, and then the rest of the transaction.
  pub IsTransaction-bind :
      (m : Tx C A) (g : A → Tx C B)
      → IsStatements v F m
      → ((a : A) → IsTransaction v (G a) (g a))
      → IsTransaction v (then_do F G) (m >>= g)
  unfolding ◌>>=◌
  IsTransaction-bind m g first more = record { at = λ c. bind-Ended c g (m c) (first.at c) more }

module _ {D C A : Type 0} (v : Views D C) where
  commit-Ended :
      (a : A) (c : C) (q : Result PyError (Unit {0}) × C)
      → Committed v c q
      → Ended v (λ d. (a, d)) c (next (λ u. done a) q)
  unfolding next
  commit-Ended a c (ok u, c') (k, w, n) = (ap (λ d. (a, d)) (sym k), w ∙ sym k, n)
  commit-Ended a c (err e, c') h = h

module _ {D C : Type 0} (dr : Driver D C) (v : Views D C) (laws : IsDriver dr v) where
  pub IsStatements-execute : {A : Type 0} (F : D → A × D) → IsStatements v F (dr.execute F)
  IsStatements-execute F = record { at = laws.execute_law F }

  -- `conn.commit()`, and then `return a`.
  pub IsTransaction-commit :
      {A : Type 0} (a : A) → IsTransaction v (λ d. (a, d)) (dr.commit >> done a)
  unfolding ◌>>=◌
  IsTransaction-commit a = record { at = λ c. commit-Ended v a c (dr.commit c) (laws.commit_law c) }
