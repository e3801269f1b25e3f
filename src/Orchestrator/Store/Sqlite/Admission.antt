-- ===== src/Orchestrator/Store/Sqlite/Admission.antt =====
-- Concurrent reservations for one account in orchestrator/store.py: the transactions are serialised, so
-- any interleaving is a list of calls.
use routing.Prelude.{
  ◌≡◌, refl, ap, ◌⊎◌, inl, inr, String, eq_iff, true, false, List, [], ◌∷◌, ◌++◌, arith, keep, All,
  All-append, All-keep, All-imp, Bool-cases,
}
use routing.Prelude.Float.{Float, IsFloat, IsSum, nought, lt, ◌≼◌}
use routing.Orchestrator.Store.Tables.{
  Charge, Database, StoreConfig, is_account, is_kept, prune, sum_account, amounts, add_charge,
}
use routing.Orchestrator.Store.Tables.Sums.{IsNonneg}
use routing.Orchestrator.Store.Sqlite.{prune_db, reserve}

-- A call of `reserve`.
pub record Ask (F : Type 0) : Type 0 where
  pub account_id : String
  pub cost : F
  pub now : F

module _ {F : Type 0} ⦃f : Float F⦄ where
  pub run_reserves : StoreConfig F → List (Ask F) → Database F → Database F
  run_reserves cfg [] db = db
  run_reserves cfg (q ∷ qs) db = run_reserves cfg qs (reserve cfg q.account_id q.cost q.now db).1

  -- There is a row of the account with that amount and time.
  abbrev pub Has : String → F → F → List (Charge F) → Type 0
  Has a x t [] = ⊥
  Has a x t (c ∷ cs) = ((c.account_id ≡ a) × (c.amount ≡ x) × (c.ts ≡ t)) ⊎ Has a x t cs

  -- A time at which a row of time `t` is still in the window.
  abbrev pub IsFresh : StoreConfig F → F → F → Type 0
  IsFresh cfg t now = lt t (f.sub now cfg.window) ≡ false

  Has-prune :
      (cfg : StoreConfig F) (b : String) (now : F) (a : String) (x t : F) (cs : List (Charge F))
      → IsFresh cfg t now
      → Has a x t cs
      → Has a x t (prune cfg b now cs)
  unfolding prune
  Has-prune cfg b now a x t [] h m = m
  Has-prune cfg b now a x t (c ∷ cs) h (inl (p, q, r)) =
      let kept : is_kept cfg b now c ≡ true = ground arith in rw kept (inl (p, q, r))
  Has-prune cfg b now a x t (c ∷ cs) h (inr m) = elim (Bool-cases (is_kept cfg b now c)) [
    | inl kept ↦ rw kept (inr (Has-prune cfg b now a x t cs h m))
    | inr gone ↦ rw gone (Has-prune cfg b now a x t cs h m)
  ]

  Has-append :
      (a : String) (x t : F) (cs ds : List (Charge F)) → Has a x t cs → Has a x t (cs ++ ds)
  Has-append a x t [] ds m = absurd m
  Has-append a x t (c ∷ cs) ds (inl h) = inl h
  Has-append a x t (c ∷ cs) ds (inr m) = inr (Has-append a x t cs ds m)

  Has-last :
      (a : String) (x t : F) (cs : List (Charge F)) (c : Charge F)
      → c.account_id ≡ a
      → c.amount ≡ x
      → c.ts ≡ t
      → Has a x t (cs ++ (c ∷ []))
  Has-last a x t [] c p q r = inl (p, q, r)
  Has-last a x t (d ∷ cs) c p q r = inr (Has-last a x t cs c p q r)

  -- Reservations of others keep a row that stays in the window.
  Has-run :
      (cfg : StoreConfig F) (a : String) (x t : F) (qs : List (Ask F)) (db : Database F)
      → All (λ q. IsFresh cfg t q.now) qs
      → Has a x t db.usage_charges
      → Has a x t (run_reserves cfg qs db).usage_charges
  unfolding run_reserves
  Has-run cfg a x t [] db h m = m
  Has-run cfg a x t (q ∷ qs) db h m =
      Has-run cfg a x t qs (reserve cfg q.account_id q.cost q.now db).1 h.1 (
        unfold reserve prune_db add_charge in
        Has-append a x t _ _ (Has-prune cfg q.account_id q.now a x t db.usage_charges h.0 m))

module _ {F : Type 0} ⦃f : Float F⦄ (laws : IsFloat F) (sums : IsSum F) where
  open laws use {le_refl, le_trans, add_mono}

  amounts-IsNonneg :
      (cs : List (Charge F)) → All (IsNonneg laws) cs → All (λ y. nought ≼ y) (amounts cs)
  amounts-IsNonneg [] n = tt
  amounts-IsNonneg (c ∷ cs) n = (n.0, amounts-IsNonneg cs n.1)

  -- The amount of a row of the account is among the amounts that are summed.
  among_of_Has :
      (a : String) (x t : F) (cs : List (Charge F))
      → Has a x t cs
      → (before after : List F) × (amounts (keep (is_account a) cs) ≡ before ++ (x ∷ after))
  among_of_Has a x t [] m = absurd m
  among_of_Has a x t (c ∷ cs) (inl (p, q, r)) =
      rw ((eq_iff c.account_id a).1 p)
        ([], amounts (keep (is_account a) cs), ap (λ y. y ∷ amounts (keep (is_account a) cs)) q)
  among_of_Has a x t (c ∷ cs) (inr m) =
      let (before, after, e) = among_of_Has a x t cs m in
      elim (Bool-cases (is_account a c)) [
        | inl mine ↦ rw mine (c.amount ∷ before, after, ap (λ (l : List F). c.amount ∷ l) e)
        | inr other ↦ rw other (before, after, e)
      ]

  sum_of_Has :
      (a : String) (x t : F) (cs : List (Charge F))
      → All (IsNonneg laws) cs
      → Has a x t cs
      → x ≼ sum_account a cs
  unfolding sum_account
  sum_of_Has a x t cs n m =
      let (before, after, e) = among_of_Has a x t cs m in
      let all = amounts-IsNonneg (keep (is_account a) cs) (All-keep _ (is_account a) cs n) in
      rw (sum_account, e) (sums.le_sum before x after (rw e at all))

  reserve-IsNonneg :
      (cfg : StoreConfig F) (a : String) (cost now : F) (db : Database F)
      → nought ≼ cost
      → All (IsNonneg laws) db.usage_charges
      → All (IsNonneg laws) (reserve cfg a cost now db).1.usage_charges
  unfolding reserve prune_db add_charge prune
  reserve-IsNonneg cfg a cost now db h n =
      All-append _ (keep (is_kept cfg a now) db.usage_charges) _ (All-keep _ _ db.usage_charges n)
        (h, tt)

  run-IsNonneg :
      (cfg : StoreConfig F) (qs : List (Ask F)) (db : Database F)
      → All (λ q. nought ≼ q.cost) qs
      → All (IsNonneg laws) db.usage_charges
      → All (IsNonneg laws) (run_reserves cfg qs db).usage_charges
  unfolding run_reserves
  run-IsNonneg cfg [] db h n = n
  run-IsNonneg cfg (q ∷ qs) db h n =
      run-IsNonneg cfg qs (reserve cfg q.account_id q.cost q.now db).1 h.1
        (reserve-IsNonneg cfg q.account_id q.cost q.now db h.0 n)

  Has-reserve :
      (cfg : StoreConfig F) (a : String) (x t : F) (db : Database F)
      → Has a x t (reserve cfg a x t db).1.usage_charges
  unfolding reserve prune_db add_charge
  Has-reserve cfg a x t db = Has-last a x t _ _ refl refl refl

  degraded_of_Has :
      (cfg : StoreConfig F) (a : String) (x y t1 t2 : F) (db : Database F)
      → IsFresh cfg t1 t2
      → cfg.threshold ≼ f.add x y
      → All (IsNonneg laws) db.usage_charges
      → Has a x t1 db.usage_charges
      → (reserve cfg a y t2 db).0.degraded ≡ true
  unfolding reserve prune_db
  degraded_of_Has cfg a x y t1 t2 db fresh over n m =
      let pruned = prune cfg a t2 db.usage_charges in
      le_trans _ _ _ over (
        add_mono x (sum_account a pruned) y y
          (sum_of_Has a x t1 pruned
            (unfold prune in All-keep _ (is_kept cfg a t2) db.usage_charges n)
            (Has-prune cfg a t2 a x t1 db.usage_charges fresh m))
          (le_refl y))

  -- Two reservations of one account whose costs together reach the threshold cannot both pass: the
  -- later one is degraded, whatever reservations of any accounts come between them, as long as the
  -- earlier one stays in the window. (Amounts are not negative, and the sum that the database makes of
  -- such amounts is at least each of them.)
  pub reserve_no_slip :
      (cfg : StoreConfig F) (a : String) (x y t1 t2 : F) (between : List (Ask F)) (db : Database F)
      → All (IsNonneg laws) db.usage_charges
      → nought ≼ x
      → All (λ q. (nought ≼ q.cost) × IsFresh cfg t1 q.now) between
      → IsFresh cfg t1 t2
      → cfg.threshold ≼ f.add x y
      → let db1 = (reserve cfg a x t1 db).1 in
        (reserve cfg a y t2 (run_reserves cfg between db1)).0.degraded ≡ true
  reserve_no_slip cfg a x y t1 t2 between db n hx q fresh over =
      let db1 = (reserve cfg a x t1 db).1 in
      degraded_of_Has cfg a x y t1 t2 (run_reserves cfg between db1) fresh over
        (run-IsNonneg cfg between db1 (All-imp _ _ (λ _ h. h.0) between q)
          (reserve-IsNonneg cfg a x t1 db hx n))
        (Has-run cfg a x t1 between db1 (All-imp _ _ (λ _ h. h.1) between q)
          (Has-reserve cfg a x t1 db))
