-- ===== src/Orchestrator/Store/Sqlite/Settle.antt =====
-- `SqliteAtomicStore.settle` of orchestrator/store.py.
use routing.Prelude.{
  ℕ, suc, ◌≤◌, ◌<◌, ◌≡◌, refl, ◌∙◌, ap, ◌⊎◌, inl, inr, String, eq_refl, true, false, ◌&&◌, none,
  some, Option-cases, List, [], ◌∷◌, ◌++◌, arith, keep, All, Bool-cases,
}
use routing.Prelude.Float.{Float, lt, eq}
use routing.Orchestrator.Store.Tables.{
  Charge, Database, StoreConfig, is_account, is_kept, prune, sum_account, amounts, add_charge,
  set_amount, latest,
}
use routing.Orchestrator.Store.Tables.Ids.{
  Ascends, Ascends-keep, IsWellFormed, set_amount-append, latest-append,
}
use routing.Orchestrator.Store.Tables.Sums.{prune-append, amounts-append, keep-append_self}
use routing.Orchestrator.Store.Sqlite.{prune_db, reserve, settle}

module _ {F : Type 0} where
  -- No row has an id below the range.
  set_amount_below :
      (i : ℕ) (x : F) (lo : ℕ) (cs : List (Charge F)) (hi : ℕ)
      → Ascends lo cs hi
      → i < lo
      → set_amount i x cs ≡ cs
  unfolding set_amount
  set_amount_below i x lo [] hi a h = refl
  set_amount_below i x lo (c ∷ cs) hi a h =
      ground (arith, set_amount_below i x (suc c.id) cs hi a.1)

  set_amount_head :
      (i : ℕ) (x : F) (d : Charge F) (cs : List (Charge F)) (hi : ℕ)
      → d.id ≡ i
      → Ascends (suc d.id) cs hi
      → set_amount i x (d ∷ cs) ≡ record d { amount = x } ∷ cs
  unfolding set_amount
  set_amount_head i x d cs hi e a = ground (arith, set_amount_below i x (suc d.id) cs hi a)

module _ {F : Type 0} ⦃f : Float F⦄ where
  -- A row that is not the account's, or has another amount.
  abbrev pub IsOther : String → F → Charge F → Type 0
  IsOther a p c = (is_account a c && eq c.amount p) ≡ false

  -- The last row of the account with the amount `p` has the amount `x` now, and all else is as it was.
  pub record IsReplaced (a : String) (p x : F) (i : ℕ) (cs : List (Charge F)) : Type 0 where
    pub before : List (Charge F)
    pub row : Charge F
    pub rest : List (Charge F)
    pub was : cs ≡ before ++ (row ∷ rest)
    pub id_eq : row.id ≡ i
    pub own : (is_account a row && eq row.amount p) ≡ true
    pub now_is : set_amount i x cs ≡ before ++ (record row { amount = x } ∷ rest)
    pub newest : All (IsOther a p) rest

  IsReplaced-below :
      (a : String) (p x : F) (i : ℕ) (d : Charge F) (cs : List (Charge F))
      → d.id < i
      → IsReplaced a p x i cs
      → IsReplaced a p x i (d ∷ cs)
  unfolding set_amount
  IsReplaced-below a p x i d cs h r = record {
    before = d ∷ r.before;
    row = r.row;
    rest = r.rest;
    was = ap (λ (l : List (Charge F)). d ∷ l) r.was;
    id_eq = r.id_eq;
    own = r.own;
    now_is = ground (arith, r.now_is);
    newest = r.newest;
  }

  latest_range :
      (a : String) (p : F) (lo : ℕ) (cs : List (Charge F)) (hi i : ℕ)
      → Ascends lo cs hi
      → latest a p cs ≡ some i
      → lo ≤ i
  unfolding latest
  latest_range a p lo [] hi i h e = cc
  latest_range a p lo (d ∷ cs) hi i h e = elim (Option-cases (latest a p cs)) [
    | inl empty ↦ ground (arith, h)
    | inr (j, found) ↦ ground (arith, h, latest_range a p (suc d.id) cs hi j h.1 found)
  ]

  latest-IsOther :
      (a : String) (p : F) (cs : List (Charge F)) → latest a p cs ≡ none → All (IsOther a p) cs
  unfolding latest
  latest-IsOther a p [] e = tt
  latest-IsOther a p (d ∷ cs) e = elim (Option-cases (latest a p cs)) [
    | inl empty ↦ (ground arith, latest-IsOther a p cs empty)
    | inr (j, found) ↦ absurd (ground arith)
  ]

  pub latest-IsReplaced :
      (a : String) (p x : F) (lo : ℕ) (cs : List (Charge F)) (hi i : ℕ)
      → Ascends lo cs hi
      → latest a p cs ≡ some i
      → IsReplaced a p x i cs
  unfolding latest
  latest-IsReplaced a p x lo [] hi i h e = absurd (cc)
  latest-IsReplaced a p x lo (d ∷ cs) hi i h e =
      elim (Bool-cases (is_account a d && eq d.amount p)) [
        | inl own ↦ elim (Option-cases (latest a p cs)) [
          | inl empty ↦ record {
            before = [];
            row = d;
            rest = cs;
            was = refl;
            id_eq = ground arith;
            own = own;
            now_is = set_amount_head i x d cs hi (ground arith) h.1;
            newest = latest-IsOther a p cs empty;
          }
          | inr (j, found) ↦
              let above : d.id < j = latest_range a p (suc d.id) cs hi j h.1 found in
              let same : j ≡ i = ground arith in
              IsReplaced-below a p x i d cs (rw (← same) above)
                (latest-IsReplaced a p x (suc d.id) cs hi i h.1 (found ∙ ap some same))
        ]
        | inr other ↦
            let found : latest a p cs ≡ some i = rw other at e in
            IsReplaced-below a p x i d cs (latest_range a p (suc d.id) cs hi i h.1 found)
              (latest-IsReplaced a p x (suc d.id) cs hi i h.1 found)
      ]

module _ {F : Type 0} ⦃f : Float F⦄ where
  -- The outcome of `settle`: of the rows that pruning leaves, none of the account has the reserved
  -- amount, and they stay as they are; or some row of the account has it, no row that was inserted after
  -- it does, and it alone has the actual amount now.
  pub settle_outcome :
      (cfg : StoreConfig F) (a : String) (reserved actual now : F) (db : Database F)
      → IsWellFormed db
      → let cs = prune cfg a now db.usage_charges in
        let db' = (settle cfg a reserved actual now db).1 in
        (All (IsOther a reserved) cs × (db'.usage_charges ≡ cs))
        ⊎ ((before : List (Charge F)) × (row : Charge F) × (rest : List (Charge F)) × (cs
              ≡ before ++ (row ∷ rest))
            × ((is_account a row && eq row.amount reserved) ≡ true)
            × All (IsOther a reserved) rest
            × (db'.usage_charges ≡ before ++ (record row { amount = actual } ∷ rest)))
  unfolding settle prune_db
  settle_outcome cfg a reserved actual now db wf =
      let cs = prune cfg a now db.usage_charges in
      elim (Option-cases (latest a reserved cs)) [
        | inl nothing ↦ inl (latest-IsOther a reserved cs nothing, rw nothing)
        | inr (i, found) ↦
            let r =
              latest-IsReplaced a reserved actual 0 cs db.next_id i
                (unfold prune in
                  Ascends-keep (is_kept cfg a now) 0 db.usage_charges db.next_id wf.ascends)
                found in
            inr (r.before, r.row, r.rest, r.was, r.own, r.newest, rw found (r.now_is))
      ]

  -- If a workflow settles an amount that was reserved for the account last, the row of that last
  -- reservation has the actual amount, and it alone, and the balance is that of the other rows and it.
  -- (Times are such that the reservation is not stale when it is settled.)
  pub settle-reserve :
      (cfg : StoreConfig F) (a : String) (reserved actual t1 t2 : F) (db : Database F)
      → IsWellFormed db
      → eq reserved reserved ≡ true
      → lt t1 (f.sub t2 cfg.window) ≡ false
      → let others = prune cfg a t2 (prune cfg a t1 db.usage_charges) in
        let (balance, db') = settle cfg a reserved actual t2 (reserve cfg a reserved t1 db).1 in
        (db'.usage_charges
          ≡ others ++ (record { id = db.next_id; account_id = a; amount = actual; ts = t1 } ∷ []))
        × (balance ≡ f.sum (amounts (keep (is_account a) others) ++ (actual ∷ [])))
  unfolding settle reserve prune_db add_charge
  settle-reserve cfg a reserved actual t1 t2 db wf same fresh =
      let pruned = prune cfg a t1 db.usage_charges in
      let others = prune cfg a t2 pruned in
      let row : Charge F = record { id = db.next_id; account_id = a; amount = reserved; ts = t1 } in
      let asc : Ascends 0 others db.next_id =
        unfold prune in
        Ascends-keep (is_kept cfg a t2) 0 pruned db.next_id
          (Ascends-keep (is_kept cfg a t1) 0 db.usage_charges db.next_id wf.ascends) in
      let own : (is_account a row && eq row.amount reserved) ≡ true = rw (eq_refl a) same in
      let kept = prune-append cfg a t2 pruned row fresh in
      let last = latest-append a reserved 0 others row asc own in
      let revalued = set_amount-append actual 0 others row asc in
      rw kept
        (rw last (rw revalued (refl, summed others (record row { amount = actual }) (eq_refl a))))
    where
      summed :
          (cs : List (Charge F)) (c : Charge F)
          → is_account a c ≡ true
          → sum_account a (cs ++ (c ∷ []))
            ≡ f.sum (amounts (keep (is_account a) cs) ++ (c.amount ∷ []))
      summed cs c mine =
          unfold sum_account in
          ap (λ l. f.sum (amounts l)) (keep-append_self a cs c mine)
          ∙ ap f.sum (amounts-append (keep (is_account a) cs) (c ∷ []))
