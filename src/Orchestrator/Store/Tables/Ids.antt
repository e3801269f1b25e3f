-- ===== src/Orchestrator/Store/Tables/Ids.antt =====
-- The ids of `usage_charges`: ascending along the table, and below the counter.
use routing.Prelude.{
  ℕ, suc, ◌+◌, ◌≤◌, ◌≡◌, String, Bool, true, ◌&&◌, List, [], ◌∷◌, ◌++◌, some, arith, keep,
  Bool-cases, inl, inr,
}
use routing.Prelude.Float.{Float, eq}
use routing.Orchestrator.Store.Tables.{Charge, Database, is_account, set_amount, latest}

module _ {F : Type 0} where
  -- Ids that ascend from `lo` on and stay below `hi`.
  abbrev pub Ascends : ℕ → List (Charge F) → ℕ → Type 0
  Ascends lo [] hi = lo ≤ hi
  Ascends lo (c ∷ cs) hi = (lo ≤ c.id) × Ascends (suc c.id) cs hi

  pub record IsWellFormed (db : Database F) : Type 0 where
    pub ascends : Ascends 0 db.usage_charges db.next_id

  Ascends-le :
      (lo lo' : ℕ) (cs : List (Charge F)) (hi : ℕ) → lo' ≤ lo → Ascends lo cs hi → Ascends lo' cs hi
  Ascends-le lo lo' [] hi h a = omega arith
  Ascends-le lo lo' (c ∷ cs) hi h a = (omega arith, a.1)

  pub Ascends-range : (lo : ℕ) (cs : List (Charge F)) (hi : ℕ) → Ascends lo cs hi → lo ≤ hi
  Ascends-range lo [] hi a = a
  Ascends-range lo (c ∷ cs) hi a = omega (arith, Ascends-range (suc c.id) cs hi a.1)

  pub Ascends-keep :
      (p : Charge F → Bool) (lo : ℕ) (cs : List (Charge F)) (hi : ℕ)
      → Ascends lo cs hi
      → Ascends lo (keep p cs) hi
  Ascends-keep p lo [] hi a = a
  Ascends-keep p lo (c ∷ cs) hi a = elim (Bool-cases (p c)) [
    | inl kept ↦ rw kept (a.0, Ascends-keep p (suc c.id) cs hi a.1)
    | inr gone ↦ rw gone (
        Ascends-le (suc c.id) lo (keep p cs) hi (omega arith) (Ascends-keep p (suc c.id) cs hi a.1))
  ]

  pub Ascends-append :
      (lo : ℕ) (cs : List (Charge F)) (c : Charge F) (hi : ℕ)
      → Ascends lo cs hi
      → c.id ≡ hi
      → Ascends lo (cs ++ (c ∷ [])) (hi + 1)
  Ascends-append lo [] c hi a e = (omega arith, omega arith)
  Ascends-append lo (d ∷ cs) c hi a e = (a.0, Ascends-append (suc d.id) cs c hi a.1 e)

  pub Ascends-set_amount :
      (i : ℕ) (x : F) (lo : ℕ) (cs : List (Charge F)) (hi : ℕ)
      → Ascends lo cs hi
      → Ascends lo (set_amount i x cs) hi
  unfolding set_amount
  Ascends-set_amount i x lo [] hi a = a
  Ascends-set_amount i x lo (c ∷ cs) hi a =
      ground (arith, Ascends-set_amount i x (suc c.id) cs hi a.1)

  -- No row has an id at or above the end of the range.
  pub set_amount-append :
      (x : F) (lo : ℕ) (cs : List (Charge F)) (c : Charge F)
      → Ascends lo cs c.id
      → set_amount c.id x (cs ++ (c ∷ [])) ≡ cs ++ (record c { amount = x } ∷ [])
  unfolding set_amount
  set_amount-append x lo [] c a = ground arith
  set_amount-append x lo (d ∷ cs) c a =
      ground (arith, Ascends-range (suc d.id) cs c.id a.1, set_amount-append x (suc d.id) cs c a.1)

module _ {F : Type 0} ⦃f : Float F⦄ where
  pub latest-append :
      (a : String) (x : F) (lo : ℕ) (cs : List (Charge F)) (c : Charge F)
      → Ascends lo cs c.id
      → (is_account a c && eq c.amount x) ≡ true
      → latest a x (cs ++ (c ∷ [])) ≡ some c.id
  unfolding latest
  latest-append a x lo [] c h m = rw m
  latest-append a x lo (d ∷ cs) c h m =
      ground (arith, Ascends-range (suc d.id) cs c.id h.1, latest-append a x (suc d.id) cs c h.1 m)
