-- ===== src/Orchestrator/Store/Postgres/Chosen.antt =====
-- Which settings `from_env` of orchestrator/postgres_store.py uses.
use mathlib.Core.Path.{subst}
use routing.Prelude.{
  false, ℕ, zero, suc, ◌≡◌, ◌≢◌, ◌≤◌, refl, sym, ◌∙◌, ap, ◌⊎◌, inl, inr, String, ◌==◌, eq_iff, Bool,
  true, Option, none, some, arith, Bool-cases, Option-cases,
}
use routing.Prelude.Float.{Float}
use routing.Prelude.Result.{Result, ok, ◌>>=◌, >>=-eq-ok, ok_injective}
use routing.Matrix.Model.{PyError}
use routing.Matrix.Tiers.{Environ, get_env}
use routing.Orchestrator.Store.Postgres.Config.{
  ℤ, pos, negsuc, Parsers, Overrides, Settings, PgStore, default_max_connections, require_psycopg,
  checked_size, choose, resolved_dsn, init, default_threshold, default_window, settings, from_env,
}

module _ {A : Type 0} where
  -- The explicit value if one is given, else what the variable's text stands for, else the default.
  abbrev pub IsChosen : (String → Result PyError A) → Option A → Option String → A → A → Type 0
  IsChosen parse given in_env default x =
      (given ≡ some x)
      ⊎ ((given ≡ none)
          × (((text : String) × (in_env ≡ some text) × (parse text ≡ ok x))
              ⊎ ((in_env ≡ none) × (x ≡ default))))

  choose-IsChosen :
      (parse : String → Result PyError A) (given : Option A) (in_env : Option String)
      (default x : A)
      → choose parse given in_env default ≡ ok x
      → IsChosen parse given in_env default x
  unfolding choose
  choose-IsChosen parse (some y) in_env default x e = inl (cc)
  choose-IsChosen parse none (some text) default x e = inr (refl, inl (text, refl, e))
  choose-IsChosen parse none none default x e = inr (refl, inr (refl, cc))

size-positive : (n : ℤ) (m : ℕ) → checked_size n ≡ ok m → (n ≡ pos m) × (1 ≤ m)
unfolding checked_size
size-positive (negsuc k) m e = absurd (cc)
size-positive (pos zero) m e = absurd (cc)
size-positive (pos (suc k)) m e =
    let same : suc k ≡ m = ok_injective (ok (suc k)) (suc k) m refl e in
    (ap pos same, omega (arith, same))

module _ {F : Type 0} ⦃f : Float F⦄ (parse : Parsers F) (env : Environ) (given : Overrides F) where
  -- The DSN that is passed, unless none or an empty one is; then the one of the environment.
  abbrev pub IsDsn : Option String → String → Type 0
  IsDsn passed dsn =
      (passed ≡ some dsn)
      ⊎ (((passed ≡ none) ⊎ (passed ≡ some "")) × (env "DATABASE_URL" ≡ some dsn))

  from_environ :
      (dsn : String)
      → get_env env "DATABASE_URL" "" ≡ dsn
      → (dsn == "") ≡ false
      → env "DATABASE_URL" ≡ some dsn
  from_environ dsn h full = elim (Option-cases (env "DATABASE_URL")) [
    | inl e ↦ absurd (ground (arith, eq_iff dsn "", rw (get_env, e) at h))
    | inr (x, e) ↦ e ∙ ap some (rw (get_env, e) at h)
  ]

  resolved-IsDsn :
      (passed : Option String) (dsn : String)
      → resolved_dsn env passed ≡ dsn
      → (dsn == "") ≡ false
      → IsDsn passed dsn
  resolved-IsDsn none dsn h full = inr (inl refl, from_environ dsn h full)
  resolved-IsDsn (some x) dsn h full = elim (Bool-cases (x == "")) [
    | inl empty ↦ inr (inr (ap some ((eq_iff x "").0 empty)), from_environ dsn (rw empty at h) full)
    | inr there ↦ inl (ap some (rw there at h))
  ]

  -- A store that was made with the settings that were asked for.
  pub record IsConfigured (dsn : Option String) (s : PgStore F) : Type 0 where
    pub dsn_eq : IsDsn dsn s.dsn
    pub has_dsn : s.dsn ≢ ""
    pub threshold_eq :
        IsChosen parse.float_of given.degraded_threshold
          (env "STORE_DEGRADED_THRESHOLD")
          default_threshold
          s.config.threshold
    pub window_eq :
        IsChosen parse.float_of given.usage_window_seconds
          (env "STORE_USAGE_WINDOW_SECONDS")
          default_window
          s.config.window
    pub size_eq :
        IsChosen parse.int_of given.max_connections
          (env "STORE_PG_MAX_CONNECTIONS")
          default_max_connections
          (pos s.max_connections)
    pub size_positive : 1 ≤ s.max_connections

  IsChosen-settings :
      (dsn : String) (c : Settings F)
      → settings parse env dsn given ≡ ok c
      → (c.dsn ≡ dsn)
        × IsChosen parse.float_of given.degraded_threshold
            (env "STORE_DEGRADED_THRESHOLD")
            default_threshold
            c.degraded_threshold
        × IsChosen parse.float_of given.usage_window_seconds
            (env "STORE_USAGE_WINDOW_SECONDS")
            default_window
            c.usage_window_seconds
        × IsChosen parse.int_of given.max_connections
            (env "STORE_PG_MAX_CONNECTIONS")
            default_max_connections
            c.max_connections
  unfolding settings
  IsChosen-settings dsn c e =
      let (t, te, e1) = >>=-eq-ok _ _ e in
      let (w, we, e2) = >>=-eq-ok _ _ e1 in
      let (n, ne, e3) = >>=-eq-ok _ _ e2 in
      let same : record {
        dsn = dsn;
        degraded_threshold = t;
        usage_window_seconds = w;
        max_connections = n;
      }
          ≡ c =
        ok_injective (ok c) _ c (sym e3) refl in
      (
        ap Settings.dsn (sym same),
        subst
            (IsChosen parse.float_of given.degraded_threshold (env "STORE_DEGRADED_THRESHOLD")
              default_threshold)
            (ap Settings.degraded_threshold same) (choose-IsChosen parse.float_of _ _ _ t te),
        subst
            (IsChosen parse.float_of given.usage_window_seconds (env "STORE_USAGE_WINDOW_SECONDS")
              default_window)
            (ap Settings.usage_window_seconds same) (choose-IsChosen parse.float_of _ _ _ w we),
        subst
            (IsChosen parse.int_of given.max_connections (env "STORE_PG_MAX_CONNECTIONS")
              default_max_connections)
            (ap Settings.max_connections same) (choose-IsChosen parse.int_of _ _ _ n ne),
      )

  init_lem :
      (has : Bool) (c : Settings F) (s : PgStore F)
      → init has c ≡ ok s
      → (has ≡ true)
        × (s.dsn ≡ c.dsn)
        × (s.config.threshold ≡ c.degraded_threshold)
        × (s.config.window ≡ c.usage_window_seconds)
        × (c.max_connections ≡ pos s.max_connections)
        × (1 ≤ s.max_connections)
  unfolding init require_psycopg
  init_lem false c s e = absurd (cc)
  init_lem true c s e =
      let (n, ne, e1) = >>=-eq-ok _ _ e in
      let same : record {
        dsn = c.dsn;
        config = record { threshold = c.degraded_threshold; window = c.usage_window_seconds };
        max_connections = n;
      }
          ≡ s =
        ok_injective (ok s) _ s (sym e1) refl in
      let (size, positive) = size-positive c.max_connections n ne in
      let count = ap PgStore.max_connections same in
      (
        refl,
        ap PgStore.dsn (sym same),
        ap (λ (x : PgStore F). x.config.threshold) (sym same),
        ap (λ (x : PgStore F). x.config.window) (sym same),
        size ∙ ap pos count,
        subst (λ x. 1 ≤ x) count positive,
      )

  -- A store that `from_env` returns has the DSN that is passed, or that of the environment if none or
  -- an empty one is passed, and it is not empty; each of the threshold, the window and the bound of
  -- the pool is the explicit argument if it is given, else what the environment's text stands for,
  -- else the default; and the bound is at least one.
  pub from_env-IsConfigured :
      (has : Bool) (dsn : Option String) (s : PgStore F)
      → from_env parse env has dsn given ≡ ok s
      → IsConfigured dsn s
  unfolding from_env
  from_env-IsConfigured has dsn s e = elim (Bool-cases (resolved_dsn env dsn == "")) [
    | inl empty ↦ absurd (ground arith)
    | inr full ↦
        let made : (settings parse env (resolved_dsn env dsn) given >>= init has) ≡ ok s =
          rw full at e in
        let (c, ce, e1) = >>=-eq-ok _ _ made in
        let (dsn_c, t, w, n) = IsChosen-settings (resolved_dsn env dsn) c ce in
        let (there, dsn_s, ts, ws, ns, positive) = init_lem has c s e1 in
        record {
          dsn_eq =
              subst (IsDsn dsn) (sym (dsn_s ∙ dsn_c))
                (resolved-IsDsn dsn (resolved_dsn env dsn) refl full);
          has_dsn = λ same. ground (arith, eq_iff (resolved_dsn env dsn) "");
          threshold_eq = subst (IsChosen parse.float_of _ _ _) (sym ts) t;
          window_eq = subst (IsChosen parse.float_of _ _ _) (sym ws) w;
          size_eq = subst (IsChosen parse.int_of _ _ _) ns n;
          size_positive = positive;
        }
  ]
