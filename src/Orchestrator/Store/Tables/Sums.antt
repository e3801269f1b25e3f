-- ===== src/Orchestrator/Store/Tables/Sums.antt =====
-- Balances of accounts: sums over the rows of `usage_charges`.
use mathlib.Core.List.{append-nil}
use routing.Prelude.{
  ◌≡◌, refl, ap, ◌∙◌, ◌≢◌, String, ◌==◌, eq_iff, true, false, List, [], ◌∷◌, ◌++◌, arith, keep,
  keep-append, keep-keep_of_imp,
}
use routing.Prelude.Float.{Float, IsFloat, AddsInOrder, nought, lt, ◌≼◌, sub-le}
use routing.Orchestrator.Store.Tables.{
  Charge, StoreConfig, is_account, is_stale, is_kept, prune, amounts, sum_account,
}

module _ {F : Type 0} ⦃f : Float F⦄ where
  pub amounts-append : (cs ds : List (Charge F)) → amounts (cs ++ ds) ≡ amounts cs ++ amounts ds
  amounts-append [] ds = refl
  amounts-append (c ∷ cs) ds = ap (λ (xs : List F). c.amount ∷ xs) (amounts-append cs ds)

  pub keep-append_self :
      (a : String) (cs : List (Charge F)) (c : Charge F)
      → is_account a c ≡ true
      → keep (is_account a) (cs ++ (c ∷ [])) ≡ keep (is_account a) cs ++ (c ∷ [])
  keep-append_self a cs c h = rw keep-append (rw h refl)

  keep-append_other :
      (a : String) (cs : List (Charge F)) (c : Charge F)
      → is_account a c ≡ false
      → keep (is_account a) (cs ++ (c ∷ [])) ≡ keep (is_account a) cs
  keep-append_other a cs c h = rw keep-append (rw h (rw append-nil refl))

  pub sum_account-append_self :
      AddsInOrder F
      → (a : String) (cs : List (Charge F)) (c : Charge F) → c.account_id ≡ a
      → sum_account a (cs ++ (c ∷ [])) ≡ f.add (sum_account a cs) c.amount
  unfolding sum_account
  sum_account-append_self order a cs c h =
      ap (λ l. f.sum (amounts l)) (keep-append_self a cs c ((eq_iff c.account_id a).1 h))
      ∙ ap f.sum (amounts-append (keep (is_account a) cs) (c ∷ []))
      ∙ order.sum-append (amounts (keep (is_account a) cs)) c.amount

  pub sum_account-append_other :
      (a : String) (cs : List (Charge F)) (c : Charge F)
      → (c.account_id == a) ≡ false
      → sum_account a (cs ++ (c ∷ [])) ≡ sum_account a cs
  unfolding sum_account
  sum_account-append_other a cs c h = ap (λ l. f.sum (amounts l)) (keep-append_other a cs c h)

  -- A row that is not stale is kept at the end.
  pub prune-append :
      (cfg : StoreConfig F) (a : String) (now : F) (cs : List (Charge F)) (c : Charge F)
      → is_stale cfg now c ≡ false
      → prune cfg a now (cs ++ (c ∷ [])) ≡ prune cfg a now cs ++ (c ∷ [])
  unfolding prune
  prune-append cfg a now cs c h = rw keep-append (ground (arith, h))

  -- Pruning one account leaves the sum of another.
  pub sum_account-prune_other :
      (cfg : StoreConfig F) (a b : String) (now : F) (cs : List (Charge F))
      → a ≢ b
      → sum_account b (prune cfg a now cs) ≡ sum_account b cs
  unfolding sum_account prune
  sum_account-prune_other cfg a b now cs h =
      ap (λ cs. f.sum (amounts cs))
        (keep-keep_of_imp (is_account b) (is_kept cfg a now) others_kept cs)
    where
      others_kept : (c : Charge F) → is_account b c ≡ true → is_kept cfg a now c ≡ true
      others_kept c e = ground (arith, eq_iff c.account_id a, eq_iff c.account_id b)

module _ {F : Type 0} ⦃f : Float F⦄ (laws : IsFloat F) where
  abbrev pub IsNonneg : Charge F → Type 0
  IsNonneg c = nought ≼ c.amount

  -- A row that was written at `now` is not stale at `now`.
  pub is_stale_now :
      (cfg : StoreConfig F) (now : F) → nought ≼ cfg.window → lt now (f.sub now cfg.window) ≡ false
  is_stale_now cfg now h = rw (sub-le laws now cfg.window h)
