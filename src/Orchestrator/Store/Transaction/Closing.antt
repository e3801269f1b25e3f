-- ===== src/Orchestrator/Store/Transaction/Closing.antt =====
-- What a transaction leaves when its connection was given back.
use routing.Prelude.{ℕ, suc, ◌-◌, ◌≡◌, sym, ◌∙◌, ap, inl, inr, true, false, arith}
use routing.Prelude.Result.{Result, ok, err}
use routing.Matrix.Model.{PyError}
use routing.Orchestrator.Store.Transaction.{
  Tx, next, closed, Driver, Views, Opened, Atomic, AllOrNothing, IsDriver,
}
use routing.Orchestrator.Store.Transaction.Atomic.{Ended}

given_back : (a b c d : ℕ) → a ≡ b - 1 → b ≡ c → c ≡ suc d → a ≡ d
given_back a b c d h k l = omega arith

module _ {D C A : Type 0} (v : Views D C) (F : D → A × D) where
  move : (d x y : D) → y ≡ x → AllOrNothing v F d x → AllOrNothing v F d y
  move d x y e (inl kept) = inl (e ∙ kept)
  move d x y e (inr whole) = inr (e ∙ whole)

module _ {D C A : Type 0} (dr : Driver D C) (v : Views D C) (laws : IsDriver dr v)
    (F : D → A × D) where
  -- A connection that is given back after an exception.
  closed_err :
      (c : C) (e : PyError) (q : Result PyError (Unit {0}) × C)
      → AllOrNothing v F (v.committed c) (v.committed q.1)
      → v.in_use q.1 ≡ v.in_use c
      → Atomic v F c (closed (err e) q)
  closed_err c e (ok u, t) h n = (h, n)
  closed_err c e (err x, t) h n = (h, n)

  closed_ok :
      (c : C) (a : A) (q : Result PyError (Unit {0}) × C)
      → F (v.committed c) ≡ (a, v.committed q.1)
      → v.in_use q.1 ≡ v.in_use c
      → Atomic v F c (closed (ok a) q)
  closed_ok c a (ok u, t) h n = (h, n)
  closed_ok c a (err x, t) h n = (inr (ap (λ p. p.1) (sym h)), n)

  pub end_ok :
      (c c1 c2 : C) (a : A)
      → Opened v c (ok tt, c1)
      → Ended v F c1 (ok a, c2)
      → Atomic v F c (closed (ok a) (dr.close_conn false c2))
  end_ok c c1 c2 a (w, k, n) (e, w2, n2) =
      let (kept, given) = laws.close_committed c2 w2 in
      closed_ok c a (dr.close_conn false c2) (ap F (sym w) ∙ e ∙ ap (λ d. (a, d)) (sym kept))
        (given_back _ _ _ _ given n2 n)

  -- What an exception leaves, after the statements that ran.
  raised_at :
      (c c1 c2 : C) (e : PyError)
      → Opened v c (ok tt, c1)
      → Ended v F c1 (err e, c2)
      → AllOrNothing v F (v.committed c) (v.committed c2)
  raised_at c c1 c2 e (w, k, n) (inl kept, n2) = inl (kept ∙ k)
  raised_at c c1 c2 e (w, k, n) (inr whole, n2) = inr (whole ∙ ap (λ d. (F d).1) w)

  pub end_err :
      (c c1 c2 t : C) (e x : PyError)
      → Opened v c (ok tt, c1)
      → Ended v F c1 (err e, c2)
      → v.committed t ≡ v.committed c2
      → v.in_use t ≡ v.in_use c2
      → Atomic v F c (closed (err x) (dr.close_conn true t))
  end_err c c1 c2 t e x o h k m =
      let (kept, given) = laws.close_failed t in
      closed_err c x (dr.close_conn true t)
        (move v F (v.committed c) (v.committed c2) (v.committed (dr.close_conn true t).1) (kept ∙ k)
          (raised_at c c1 c2 e o h))
        (given_back _ _ _ _ given (m ∙ h.1) o.2)

module _ {D C A : Type 0} (v : Views D C) (F : D → A × D) where
  pub opened :
      (end : Result PyError A × C → Result PyError A × C) (body : Tx C A) (c : C)
      (q : Result PyError (Unit {0}) × C)
      → Opened v c q
      → ((c1 : C) → Opened v c (ok tt, c1) → Atomic v F c (end (body c1)))
      → Atomic v F c (next (λ u c1. end (body c1)) q)
  unfolding next
  opened end body c (ok tt, c1) o rest = rest c1 o
  opened end body c (err e, c1) (k, n) rest = (inl k, n)
