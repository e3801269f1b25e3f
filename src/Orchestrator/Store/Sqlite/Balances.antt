-- ===== src/Orchestrator/Store/Sqlite/Balances.antt =====
-- What `SqliteAtomicStore.settle` of orchestrator/store.py makes of the accounts' sums.
use routing.Prelude.{
  ◌≡◌, refl, sym, ◌∙◌, ap, ◌≢◌, inl, inr, String, ◌==◌, eq_iff, true, false, ◌&&◌, List, ◌∷◌, ◌++◌,
  arith, keep, keep-append,
}
use routing.Prelude.Float.{Float, eq}
use routing.Orchestrator.Store.Tables.{
  Charge, Database, StoreConfig, is_account, amounts, sum_account,
}
use routing.Orchestrator.Store.Tables.Ids.{IsWellFormed}
use routing.Orchestrator.Store.Tables.Sums.{sum_account-prune_other}
use routing.Orchestrator.Store.Sqlite.{settle}
use routing.Orchestrator.Store.Sqlite.Settle.{settle_outcome}

module _ {F : Type 0} ⦃f : Float F⦄ where
  -- The sum of an account over a table with one row in the middle.
  sum_account-middle_other :
      (b : String) (before rest : List (Charge F)) (c : Charge F) (x : F)
      → (c.account_id == b) ≡ false
      → sum_account b (before ++ (record c { amount = x } ∷ rest))
        ≡ sum_account b (before ++ (c ∷ rest))
  unfolding sum_account
  sum_account-middle_other b before rest c x h =
      ap (λ l. f.sum (amounts l)) (kept_same (record c { amount = x }) refl)
    where
      kept_same :
          (d : Charge F)
          → d.account_id ≡ c.account_id
          → keep (is_account b) (before ++ (d ∷ rest)) ≡ keep (is_account b) (before ++ (c ∷ rest))
      kept_same d e =
          rw keep-append (rw (keep-append (is_account b) before (c ∷ rest)) (rw (e, h) refl))

  -- Settling for one account changes the sum of no other.
  pub settle_other :
      (cfg : StoreConfig F) (a b : String) (reserved actual now : F) (db : Database F)
      → IsWellFormed db
      → a ≢ b
      → sum_account b (settle cfg a reserved actual now db).1.usage_charges
        ≡ sum_account b db.usage_charges
  settle_other cfg a b reserved actual now db wf ne =
      let untouched = sum_account-prune_other cfg a b now db.usage_charges ne in
      elim (settle_outcome cfg a reserved actual now db wf) [
        | inl (nothing, same) ↦ ap (sum_account b) same ∙ untouched
        | inr (before, row, rest, was, own, newest, same) ↦
            ap (sum_account b) same
            ∙ sum_account-middle_other b before rest row actual (not_mine row own)
            ∙ ap (sum_account b) (sym was)
            ∙ untouched
      ]
    where
      not_mine :
          (c : Charge F)
          → (is_account a c && eq c.amount reserved) ≡ true
          → (c.account_id == b) ≡ false
      not_mine c h = ground (arith, eq_iff c.account_id a, eq_iff c.account_id b)
