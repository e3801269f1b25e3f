-- ===== src/Orchestrator/Store/Postgres/Agree.antt =====
-- The two backends under one sequence of calls with a clock that does not run backwards: they give
-- the same answers, though SQLite keeps stale rows that a `balance` of Postgres has deleted.
use routing.Prelude.{
  ℕ, ◌+◌, ◌≡◌, refl, sym, ◌∙◌, ap, String, Bool, true, not, Option, none, some, List, [], ◌∷◌, ◌++◌,
  arith, keep, keep-append, keep-keep_of_imp, keep-keep_ext,
}
use routing.Prelude.Float.{Float, IsFloat, ◌≼◌}
use routing.Orchestrator.Store.Tables.{
  Charge, Database, StoreConfig, is_account, is_stale, is_kept, prune, sum_account, amounts, latest,
  set_amount, add_charge,
}
use routing.Orchestrator.Store.Sqlite.{prune_db, revalue}

module _ {F : Type 0} where
  -- A filter that does not look at amounts.
  keep-set_amount :
      (p : Charge F → Bool) (i : ℕ) (x : F)
      → ((c : Charge F) → p (record c { amount = x }) ≡ p c)
      → (cs : List (Charge F)) → keep p (set_amount i x cs) ≡ set_amount i x (keep p cs)
  unfolding set_amount
  keep-set_amount p i x h [] = refl
  keep-set_amount p i x h (c ∷ cs) = ground (arith, h c, keep-set_amount p i x h cs)

module _ {F : Type 0} ⦃f : Float F⦄ (cfg : StoreConfig F) where
  -- The rows in the window at a time.
  abbrev pub is_live : F → Charge F → Bool
  is_live now c = not (is_stale cfg now c)

  abbrev pub live : F → List (Charge F) → List (Charge F)
  live now = keep (is_live now)

  -- For one account, pruning and leaving out all that is stale come to the same.
  account_live :
      (a : String) (now : F) (cs : List (Charge F))
      → keep (is_account a) (prune cfg a now cs) ≡ keep (is_account a) (live now cs)
  unfolding prune
  account_live a now cs =
      keep-keep_ext (is_account a) (is_kept cfg a now) (is_live now) (λ c h. ground arith) cs

  latest-account :
      (a : String) (x : F) (cs : List (Charge F))
      → latest a x (keep (is_account a) cs) ≡ latest a x cs
  unfolding latest
  latest-account a x [] = refl
  latest-account a x (c ∷ cs) = ground (arith, latest-account a x cs)

  sum_live :
      (a : String) (now : F) (cs : List (Charge F))
      → sum_account a (prune cfg a now cs) ≡ sum_account a (live now cs)
  unfolding sum_account
  sum_live a now cs = ap (λ cs. f.sum (amounts cs)) (account_live a now cs)

  latest-live :
      (a : String) (x now : F) (cs : List (Charge F))
      → latest a x (prune cfg a now cs) ≡ latest a x (live now cs)
  latest-live a x now cs =
      sym (latest-account a x (prune cfg a now cs))
      ∙ ap (latest a x) (account_live a now cs)
      ∙ latest-account a x (live now cs)

  -- The balance after a row was revalued.
  sum_revalued_live :
      (a : String) (now : F) (i : Option ℕ) (x : F) (d : Database F)
      → sum_account a (revalue i x (prune_db cfg a now d)).usage_charges
        ≡ sum_account a
            (revalue i x (record d { usage_charges = live now d.usage_charges })).usage_charges
  unfolding prune_db
  sum_revalued_live a now none x d = sum_live a now d.usage_charges
  sum_revalued_live a now (some i) x d =
      unfold sum_account in
      ap (λ cs. f.sum (amounts cs))
        (keep-set_amount (is_account a) i x (λ c. refl) (prune cfg a now d.usage_charges)
          ∙ ap (set_amount i x) (account_live a now d.usage_charges)
          ∙ sym (keep-set_amount (is_account a) i x (λ c. refl) (live now d.usage_charges)))

  -- The same tables, but for charges that are stale from `t` on.
  pub record Agree (t : F) (d e : Database F) : Type 0 where
    pub rows : (now : F) → t ≼ now → live now d.usage_charges ≡ live now e.usage_charges
    pub ids : d.next_id ≡ e.next_id
    pub keys : d.idempotency ≡ e.idempotency
    pub tasks_eq : d.tasks ≡ e.tasks

module _ {F : Type 0} ⦃f : Float F⦄ (laws : IsFloat F) (cfg : StoreConfig F) where
  open laws use {le_refl, le_trans, sub_mono}

  -- What is stale stays stale, so pruning removes nothing that is live later.
  live-prune :
      (a : String) (now later : F) (cs : List (Charge F))
      → now ≼ later
      → live cfg later (prune cfg a now cs) ≡ live cfg later cs
  unfolding prune
  live-prune a now later cs h = keep-keep_of_imp (is_live cfg later) (is_kept cfg a now) kept cs
    where
      kept : (c : Charge F) → is_live cfg later c ≡ true → is_kept cfg a now c ≡ true
      kept c e = ground (
        arith,
        le_trans (f.sub now cfg.window) (f.sub later cfg.window) c.ts
            (sub_mono now later cfg.window h),
      )

  pub Agree-prune :
      (a : String) (t now : F) (d e : Database F)
      → t ≼ now
      → Agree cfg t d e
      → Agree cfg now (prune_db cfg a now d) (prune_db cfg a now e)
  unfolding prune_db
  Agree-prune a t now d e h g = record {
    rows = λ later k.
        live-prune a now later d.usage_charges k
        ∙ g.rows later (le_trans t now later h k)
        ∙ sym (live-prune a now later e.usage_charges k);
    ids = g.ids;
    keys = g.keys;
    tasks_eq = g.tasks_eq;
  }

  -- A prune on one side alone, as `balance` of Postgres makes it.
  pub Agree-prune_right :
      (a : String) (t now : F) (d e : Database F)
      → t ≼ now
      → Agree cfg t d e
      → Agree cfg now d (prune_db cfg a now e)
  unfolding prune_db
  Agree-prune_right a t now d e h g = record {
    rows = λ later k.
        g.rows later (le_trans t now later h k) ∙ sym (live-prune a now later e.usage_charges k);
    ids = g.ids;
    keys = g.keys;
    tasks_eq = g.tasks_eq;
  }

  pub sum-Agree :
      (a : String) (t now : F) (d e : Database F)
      → t ≼ now
      → Agree cfg t d e
      → sum_account a (prune_db cfg a now d).usage_charges
        ≡ sum_account a (prune_db cfg a now e).usage_charges
  unfolding prune_db
  sum-Agree a t now d e h g =
      sum_live cfg a now d.usage_charges
      ∙ ap (sum_account a) (g.rows now h)
      ∙ sym (sum_live cfg a now e.usage_charges)

  pub revalued-Agree :
      (a : String) (t now : F) (i : Option ℕ) (x : F) (d e : Database F)
      → t ≼ now
      → Agree cfg t d e
      → sum_account a (revalue i x (prune_db cfg a now d)).usage_charges
        ≡ sum_account a (revalue i x (prune_db cfg a now e)).usage_charges
  revalued-Agree a t now i x d e h g =
      sum_revalued_live cfg a now i x d ∙ same i ∙ sym (sum_revalued_live cfg a now i x e)
    where
      same :
          (i : Option ℕ)
          → sum_account a
              (revalue i x
                (record d { usage_charges = live cfg now d.usage_charges })).usage_charges
            ≡ sum_account a
                (revalue i x
                  (record e { usage_charges = live cfg now e.usage_charges })).usage_charges
      same none = ap (sum_account a) (g.rows now h)
      same (some i) = ap (λ cs. sum_account a (set_amount i x cs)) (g.rows now h)

  pub latest-Agree :
      (a : String) (x t now : F) (d e : Database F)
      → t ≼ now
      → Agree cfg t d e
      → latest a x (prune_db cfg a now d).usage_charges
        ≡ latest a x (prune_db cfg a now e).usage_charges
  unfolding prune_db
  latest-Agree a x t now d e h g =
      latest-live cfg a x now d.usage_charges
      ∙ ap (latest a x) (g.rows now h)
      ∙ sym (latest-live cfg a x now e.usage_charges)

  pub Agree-add :
      (a : String) (x ts t : F) (d e : Database F)
      → Agree cfg t d e
      → Agree cfg t (add_charge a x ts d) (add_charge a x ts e)
  unfolding add_charge
  Agree-add a x ts t d e g = record {
    rows = λ later k.
        keep-append (is_live cfg later) d.usage_charges _
        ∙ (λ i.
            g.rows later k i
            ++ keep (is_live cfg later)
                (record { id = g.ids i; account_id = a; amount = x; ts = ts } ∷ []))
        ∙ sym (keep-append (is_live cfg later) e.usage_charges _);
    ids = ap (λ n. n + 1) g.ids;
    keys = g.keys;
    tasks_eq = g.tasks_eq;
  }

  pub Agree-revalue :
      (i : Option ℕ) (x t : F) (d e : Database F)
      → Agree cfg t d e
      → Agree cfg t (revalue i x d) (revalue i x e)
  Agree-revalue none x t d e g = g
  Agree-revalue (some i) x t d e g = record {
    rows = λ later k.
        keep-set_amount (is_live cfg later) i x (λ c. refl) d.usage_charges
        ∙ ap (set_amount i x) (g.rows later k)
        ∙ sym (keep-set_amount (is_live cfg later) i x (λ c. refl) e.usage_charges);
    ids = g.ids;
    keys = g.keys;
    tasks_eq = g.tasks_eq;
  }
