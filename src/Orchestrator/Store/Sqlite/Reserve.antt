-- ===== src/Orchestrator/Store/Sqlite/Reserve.antt =====
-- `SqliteAtomicStore.reserve` of orchestrator/store.py.
use routing.Prelude.{
  ◌≡◌, refl, sym, ◌∙◌, ap, ◌≢◌, String, ◌==◌, eq_iff, false, List, arith, keep-keep_of_imp,
  Bool-cases, inl, inr, if◌then◌else◌,
}
use routing.Prelude.Float.{Float, IsFloat, AddsInOrder, nought, ◌≼◌, ticks}
use routing.Orchestrator.Store.Tables.{
  Charge, Database, StoreConfig, is_kept, prune, sum_account, add_charge,
}
use routing.Orchestrator.Store.Tables.Sums.{
  sum_account-append_self, sum_account-append_other, sum_account-prune_other, prune-append,
  is_stale_now,
}
use routing.Orchestrator.Store.Sqlite.{prune_db, reserve, balance}

-- One value at a key, and another one elsewhere.
at_account :
    {A : Type 0} (a b : String) (x y : A) (g : String → A)
    → g a ≡ x
    → (a ≢ b → g b ≡ y)
    → g b ≡ (if a == b then x else y)
at_account a b x y g own others = elim (Bool-cases (a == b)) [
  | inl same ↦ rw (same, ← (eq_iff a b).0 same) own
  | inr other ↦ rw other (others (λ e. ground (arith, eq_iff a b)))
]

module _ {F : Type 0} ⦃f : Float F⦄ where
  reserve_sums :
      AddsInOrder F
      → (cfg : StoreConfig F) (a : String) (cost now : F) (db : Database F)
      → let (r, db') = reserve cfg a cost now db in
        (r.balance ≡ sum_account a db'.usage_charges)
        × (r.degraded ≡ f.le cfg.threshold (sum_account a db'.usage_charges))
        × ((b : String) → a ≢ b → sum_account b db'.usage_charges ≡ sum_account b db.usage_charges)
  unfolding reserve prune_db add_charge
  reserve_sums order cfg a cost now db =
      let pruned = prune cfg a now db.usage_charges in
      let row : Charge F = record { id = db.next_id; account_id = a; amount = cost; ts = now } in
      let total = sum_account-append_self order a pruned row refl in
      (
        sym total,
        ap (f.le cfg.threshold) (sym total),
        λ b ne.
            sum_account-append_other b pruned row (not_same b ne)
            ∙ sum_account-prune_other cfg a b now db.usage_charges ne,
      )
    where
      not_same : (b : String) → a ≢ b → (a == b) ≡ false
      not_same b ne = ground (arith, eq_iff a b)

  -- Pruning twice at one time is pruning once.
  prune_idem :
      (cfg : StoreConfig F) (a : String) (now : F) (cs : List (Charge F))
      → prune cfg a now (prune cfg a now cs) ≡ prune cfg a now cs
  unfolding prune
  prune_idem cfg a now cs = keep-keep_of_imp (is_kept cfg a now) (is_kept cfg a now) (λ c h. h) cs

  -- If the database adds the rows in order, the reservation reports the account's sum over the rows as they are after it, and `degraded`
  -- says exactly whether that sum is at or over the threshold. No other account's sum changes.
  pub reserve_lem :
      AddsInOrder F
      → (cfg : StoreConfig F) (a : String) (cost now : F) (db : Database F) (b : String)
      → let (r, db') = reserve cfg a cost now db in
        (sum_account b db'.usage_charges
          ≡ (if a == b then r.balance else sum_account b db.usage_charges))
        × (r.degraded ≡ f.le cfg.threshold (sum_account a db'.usage_charges))
  reserve_lem order cfg a cost now db b =
      let (own, over, others) = reserve_sums order cfg a cost now db in
      (
        at_account a b _ _ (λ c. sum_account c (reserve cfg a cost now db).1.usage_charges)
            (sym own) (others b),
        over,
      )

module _ {F : Type 0} ⦃f : Float F⦄ (laws : IsFloat F) (order : AddsInOrder F) where
  -- The balance that is read at the time of a reservation is the one that the reservation reports.
  pub balance-reserve :
      (cfg : StoreConfig F) (a : String) (cost now : F) (db : Database F)
      → nought ≼ cfg.window
      → (balance cfg a now (reserve cfg a cost now db).1).0 ≡ (reserve cfg a cost now db).0.balance
  unfolding reserve balance prune_db add_charge
  balance-reserve cfg a cost now db h =
      let pruned = prune cfg a now db.usage_charges in
      let row : Charge F = record { id = db.next_id; account_id = a; amount = cost; ts = now } in
      rw (prune-append cfg a now pruned row (is_stale_now laws cfg now h)) (
        rw (prune_idem cfg a now db.usage_charges)
          (sum_account-append_self order a pruned row refl))
