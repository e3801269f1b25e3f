-- ===== src/Orchestrator/Store/Postgres/Setup.antt =====
-- How a `PostgresAtomicStore` (orchestrator/postgres_store.py) starts on a database that has rows.
use routing.Prelude.{◌≡◌, refl, sym, ◌∙◌, ap, inl, inr, Bool}
use routing.Prelude.Result.{Result, ok, err}
use routing.Matrix.Model.{PyError}
use routing.Orchestrator.Store.Postgres.{PgDatabase}
use routing.Orchestrator.Store.Postgres.Config.{PgStore, Settings, init}
use routing.Orchestrator.Store.Transaction.{Tx, next, ◌>>=◌, done, Driver, Views, Atomic, IsDriver}
use routing.Orchestrator.Store.Postgres.Connection.{setup_tx, start_pool, new_store}
use routing.Orchestrator.Store.Postgres.Faults.{setup-Atomic}

module _ {F C : Type 0} (dr : Driver (PgDatabase F) C) (v : Views (PgDatabase F) C)
    (laws : IsDriver dr v) where
  -- A transaction that changes nothing.
  kept_by :
      (c : C) (q : Result PyError (Unit {0}) × C)
      → Atomic v (λ d. (tt, d)) c q
      → (v.committed q.1 ≡ v.committed c) × (v.in_use q.1 ≡ v.in_use c)
  kept_by c (ok u, c') (e, n) = (sym (ap (λ p. p.1) e), n)
  kept_by c (err e, c') (inl same, n) = (same, n)
  kept_by c (err e, c') (inr same, n) = (same, n)

  -- The state keeps the tables and the connections in use.
  abbrev pub IsKept : C → C → Type 0
  IsKept c c' = (v.committed c' ≡ v.committed c) × (v.in_use c' ≡ v.in_use c)

  opened-IsKept :
      (store : PgStore F) (c : C) (q : Result PyError (Unit {0}) × C)
      → IsKept c q.1
      → IsKept c (next (λ u. setup_tx dr >>= λ u2. done store) q).1
  unfolding next ◌>>=◌
  opened-IsKept store c (err e, c1) h = h
  opened-IsKept store c (ok u, c1) (k, n) =
      let (k2, n2) = kept_by c1 (setup_tx dr c1) (setup-Atomic dr v laws c1) in
      done_kept (setup_tx dr c1) (k2 ∙ k) (n2 ∙ n)
    where
      done_kept :
          (q : Result PyError (Unit {0}) × C)
          → v.committed q.1 ≡ v.committed c
          → v.in_use q.1 ≡ v.in_use c
          → IsKept c (next (λ u2. done store) q).1
      done_kept (ok u, t) a b = (a, b)
      done_kept (err e, t) a b = (a, b)

  -- `__init__`, whether it returns or raises, leaves the rows of
  -- the tables as they were, and no connection in use, if opening the pool does so.
  pub new_store-IsKept :
      (open_pool : PgStore F → Tx C (Unit {0}))
      → ((store : PgStore F) (c : C) → IsKept c (open_pool store c).1)
      → (has : Bool) (s : Settings F) (c : C) → IsKept c (new_store dr open_pool has s c).1
  unfolding new_store ◌>>=◌ next
  new_store-IsKept open_pool opens has s c = started (init has s)
    where
      started : (r : Result PyError (PgStore F)) → IsKept c (start_pool dr open_pool r c).1
      started (err e) = (refl, refl)
      started (ok store) = opened-IsKept store c (open_pool store c) (opens store c)
