-- ===== src/Orchestrator/Store/Transaction.antt =====
-- A method of orchestrator/store.py or orchestrator/postgres_store.py as the statements of one
-- transaction on a connection, any of which may raise. The database and the driver are not part of
-- the program: they are an interface, with what their documentation says as laws.
pub mod Atomic
pub mod Closing
use routing.Prelude.{ℕ, suc, ◌-◌, ◌≡◌, ◌⊎◌, Bool, true, false}
use routing.Prelude.Result.{Result, ok, err}
use routing.Matrix.Model.{PyError}

-- `C` is all that the driver holds: the database, the connections, the pool.
abbrev pub Tx : Type 0 → Type 0 → Type 0
Tx C A = C → Result PyError A × C

module _ {C A B : Type 0} where
  unfoldable pub next : (A → Tx C B) → Result PyError A × C → Result PyError B × C
  next g (ok a, c) = g a c
  next g (err e, c) = (err e, c)

  infixl 10 ◌>>=◌ ◌>>◌
  unfoldable pub ◌>>=◌ : Tx C A → (A → Tx C B) → Tx C B
  unfolding next
  ◌>>=◌ m g c = next g (m c)

  abbrev pub ◌>>◌ : Tx C A → Tx C B → Tx C B
  m >> k = m >>= λ _. k

module _ {C A : Type 0} where
  abbrev pub done : A → Tx C A
  done a c = (ok a, c)

  -- A result, unless giving the connection back raises.
  abbrev pub closed : Result PyError A → Result PyError (Unit {0}) × C → Result PyError A × C
  closed r (ok u, c) = (r, c)
  closed r (err x, c) = (err x, c)

-- `open_conn` is `connect`, or the entry of `pool.connection()`; `close_conn` is `close`, or the exit
-- of `pool.connection()`, which is told whether the block raised. A statement reads and changes the
-- tables.
pub record Driver (D C : Type 0) : Type 1 where
  pub open_conn : Tx C (Unit {0})
  pub close_conn : Bool → Tx C (Unit {0})
  pub execute : {A : Type 0} → (D → A × D) → Tx C A
  pub commit : Tx C (Unit {0})
  pub rollback : Tx C (Unit {0})

-- The tables as others see them and as the open transaction does, and the connections that are in
-- use.
pub record Views (D C : Type 0) : Type 0 where
  pub committed : C → D
  pub working : C → D
  pub in_use : C → ℕ

module _ {D C A : Type 0} (v : Views D C) where
  -- Statements inside a transaction: the effect is on its own view only.
  abbrev pub Stated : (D → A × D) → C → Result PyError A × C → Type 0
  Stated F c (ok a, c') =
      (F (v.working c) ≡ (a, v.working c'))
      × (v.committed c' ≡ v.committed c)
      × (v.in_use c' ≡ v.in_use c)
  Stated F c (err e, c') = (v.committed c' ≡ v.committed c) × (v.in_use c' ≡ v.in_use c)

  -- What a commit may leave: it raised, and nothing is changed, or its answer was lost.
  abbrev pub AllOrNothing : (D → A × D) → D → D → Type 0
  AllOrNothing F d d' = (d' ≡ d) ⊎ (d' ≡ (F d).1)

  -- A whole transaction on the tables.
  abbrev pub Atomic : (D → A × D) → C → Result PyError A × C → Type 0
  Atomic F c (ok a, c') = (F (v.committed c) ≡ (a, v.committed c')) × (v.in_use c' ≡ v.in_use c)
  Atomic F c (err e, c') =
      AllOrNothing F (v.committed c) (v.committed c') × (v.in_use c' ≡ v.in_use c)

module _ {D C : Type 0} (v : Views D C) where
  abbrev pub Opened : C → Result PyError (Unit {0}) × C → Type 0
  Opened c (ok u, c') =
      (v.working c' ≡ v.committed c)
      × (v.committed c' ≡ v.committed c)
      × (v.in_use c' ≡ suc (v.in_use c))
  Opened c (err e, c') = (v.committed c' ≡ v.committed c) × (v.in_use c' ≡ v.in_use c)

  abbrev pub Committed : C → Result PyError (Unit {0}) × C → Type 0
  Committed c (ok u, c') =
      (v.committed c' ≡ v.working c) × (v.working c' ≡ v.working c) × (v.in_use c' ≡ v.in_use c)
  Committed c (err e, c') =
      ((v.committed c' ≡ v.committed c) ⊎ (v.committed c' ≡ v.working c))
      × (v.in_use c' ≡ v.in_use c)

-- What the drivers' documentation says. A connection that is closed after an exception has changed
-- nothing more, nor has one whose transaction was committed before.
pub record IsDriver {D C : Type 0} (dr : Driver D C) (v : Views D C) : Type 1 where
  pub open_law : (c : C) → Opened v c (dr.open_conn c)
  pub execute_law : {A : Type 0} (F : D → A × D) (c : C) → Stated v F c (dr.execute F c)
  pub commit_law : (c : C) → Committed v c (dr.commit c)
  pub rollback_law :
      (c : C)
      → (v.committed (dr.rollback c).1 ≡ v.committed c) × (v.in_use (dr.rollback c).1 ≡ v.in_use c)
  pub close_failed :
      (c : C)
      → (v.committed (dr.close_conn true c).1 ≡ v.committed c)
        × (v.in_use (dr.close_conn true c).1 ≡ v.in_use c - 1)
  pub close_committed :
      (c : C)
      → v.working c ≡ v.committed c
      → (v.committed (dr.close_conn false c).1 ≡ v.committed c)
        × (v.in_use (dr.close_conn false c).1 ≡ v.in_use c - 1)
