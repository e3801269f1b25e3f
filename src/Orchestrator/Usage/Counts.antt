-- ===== src/Orchestrator/Usage/Counts.antt =====
-- What the ledger of orchestrator/usage.py keeps true, and what a recording changes.
use mathlib.Core.Path.{subst}
use routing.Prelude.{
  ℕ, ◌+◌, ◌≡◌, refl, sym, ◌∙◌, ap, inl, inr, String, ◌==◌, eq_iff, Bool-cases, Bool, true, false,
  Option, none, some, [], ◌∷◌, arith, if◌then◌else◌, Option-cases,
}
use routing.Prelude.Dict.{Dict, lookup, insert, lookup-insert}
use routing.Prelude.Float.{Float}
use routing.Orchestrator.Usage.{
  AccountLedger, UsageSnapshot, UsageLedger, count_of, view, new_account, charge, or_new, account,
  record_usage, snapshot,
}

abbrev pub total : Dict ℕ → ℕ
total [] = 0
total ((k, n) ∷ d) = n + total d

total-insert :
    (k : String) (d : Dict ℕ) → total (insert k (count_of (lookup k d) + 1) d) ≡ total d + 1
unfolding lookup insert
total-insert k [] = refl
total-insert k ((j, n) ∷ d) = ground (arith, total-insert k d)

module _ {F : Type 0} where
  -- The calls of an account are counted once for each tier used.
  abbrev pub IsCounted : UsageSnapshot F → Type 0
  IsCounted s = s.call_count ≡ total s.tiers_used

module _ {F : Type 0} ⦃f : Float F⦄ where
  record_usage_new :
      (l : UsageLedger F) (a t : String) (cost : F)
      → lookup a l ≡ none
      → record_usage l a t cost
        ≡ insert a (charge (new_account a) t cost) (insert a (new_account a) l)
  unfolding record_usage account
  record_usage_new l a t cost e = rw (e, account) refl

  record_usage_old :
      (l : UsageLedger F) (a t : String) (cost : F) (x : AccountLedger F)
      → lookup a l ≡ some x
      → record_usage l a t cost ≡ insert a (charge x t cost) l
  unfolding record_usage account
  record_usage_old l a t cost x e = rw (e, account) refl

  -- Two writes to one key.
  twice :
      (same : Bool) (x y : AccountLedger F) (old : Option (AccountLedger F))
      {mid : Option (AccountLedger F)}
      → mid ≡ (if same then some y else old)
      → (if same then some x else mid) ≡ (if same then some x else old)
  twice true x y old e = refl
  twice false x y old e = e

  -- The account after a recording is the one before it, charged.
  account-record_usage :
      (l : UsageLedger F) (a t : String) (cost : F) (b : String)
      → lookup b (record_usage l a t cost)
        ≡ (if a == b then some (charge (or_new a (lookup a l)) t cost) else lookup b l)
  account-record_usage l a t cost b = elim (Option-cases (lookup a l)) [
    | inl e ↦
        ap (lookup b) (record_usage_new l a t cost e)
        ∙ lookup-insert a b (charge (new_account a) t cost) (insert a (new_account a) l)
        ∙ rw e (twice (a == b) _ (new_account a) (lookup b l) (lookup-insert a b (new_account a) l))
    | inr (x, e) ↦
        ap (lookup b) (record_usage_old l a t cost x e)
        ∙ rw e (lookup-insert a b (charge x t cost) l)
  ]

  snapshot_if :
      (same : Bool) (a t : String) (cost : F) (x : Option (AccountLedger F)) (b : String)
      (y : Option (AccountLedger F))
      → view (or_new b (if same then some (charge (or_new a x) t cost) else y))
        ≡ (if same then view (charge (or_new a x) t cost) else view (or_new b y))
  snapshot_if true a t cost x b y = refl
  snapshot_if false a t cost x b y = refl

  -- A recording adds to the account's total its cost, and to its calls and to the tier's count one;
  -- it changes no other account.
  pub snapshot-record_usage :
      (l : UsageLedger F) (a t : String) (cost : F) (b : String)
      → snapshot (record_usage l a t cost) b
        ≡ (if a == b then view (charge (or_new a (lookup a l)) t cost) else snapshot l b)
  unfolding snapshot
  snapshot-record_usage l a t cost b =
      rw (account-record_usage l a t cost b)
        (snapshot_if (a == b) a t cost (lookup a l) b (lookup b l))

  -- The calls recorded one after the other: an account, a tier and a cost for each.
  abbrev pub record_calls : Dict (String × F) → UsageLedger F → UsageLedger F
  record_calls [] l = l
  record_calls ((a, (t, cost)) ∷ calls) l = record_calls calls (record_usage l a t cost)

  charge-IsCounted :
      (x : AccountLedger F) (t : String) (cost : F)
      → IsCounted (view x)
      → IsCounted (view (charge x t cost))
  unfolding charge view
  charge-IsCounted x t cost h = omega (arith, h, total-insert t x.tiers_used)

  IsCounted-at :
      (l : UsageLedger F) (a : String)
      → ((b : String) → IsCounted (snapshot l b))
      → IsCounted (view (or_new a (lookup a l)))
  unfolding snapshot
  IsCounted-at l a h = h a

  IsCounted-if :
      (same : Bool) (x y : UsageSnapshot F)
      → IsCounted x
      → IsCounted y
      → IsCounted (if same then x else y)
  IsCounted-if true x y hx hy = hx
  IsCounted-if false x y hx hy = hy

  record_usage-IsCounted :
      (l : UsageLedger F) (a t : String) (cost : F)
      → ((b : String) → IsCounted (snapshot l b))
      → (b : String) → IsCounted (snapshot (record_usage l a t cost) b)
  record_usage-IsCounted l a t cost h b =
      subst IsCounted (sym (snapshot-record_usage l a t cost b)) (
        IsCounted-if (a == b) _ _
          (charge-IsCounted (or_new a (lookup a l)) t cost (IsCounted-at l a h)) (h b))

  record_calls-IsCounted :
      (calls : Dict (String × F)) (l : UsageLedger F)
      → ((b : String) → IsCounted (snapshot l b))
      → (b : String) → IsCounted (snapshot (record_calls calls l) b)
  record_calls-IsCounted [] l h = h
  record_calls-IsCounted ((a, (t, cost)) ∷ calls) l h =
      record_calls-IsCounted calls (record_usage l a t cost) (record_usage-IsCounted l a t cost h)

  -- How many of the calls name an account.
  abbrev pub calls_of : String → Dict (String × F) → ℕ
  calls_of b [] = 0
  calls_of b ((a, call) ∷ calls) = let rest = calls_of b calls in if a == b then rest + 1 else rest

  call_count-record_usage :
      (l : UsageLedger F) (a t : String) (cost : F) (b : String)
      → (snapshot (record_usage l a t cost) b).call_count
        ≡ (if a == b then (snapshot l b).call_count + 1 else (snapshot l b).call_count)
  unfolding snapshot view charge
  call_count-record_usage l a t cost b = elim (Bool-cases (a == b)) [
    | inl same ↦
        ap UsageSnapshot.call_count (snapshot-record_usage l a t cost b)
        ∙ rw same (ap (λ x. (or_new x (lookup x l)).call_count + 1) ((eq_iff a b).0 same))
    | inr other ↦ ap UsageSnapshot.call_count (snapshot-record_usage l a t cost b) ∙ rw other refl
  ]

  record_calls-calls_of :
      (calls : Dict (String × F)) (l : UsageLedger F) (b : String)
      → (snapshot (record_calls calls l) b).call_count
        ≡ (snapshot l b).call_count + calls_of b calls
  record_calls-calls_of [] l b = omega arith
  record_calls-calls_of ((a, (t, cost)) ∷ calls) l b = ground (
    arith,
    record_calls-calls_of calls (record_usage l a t cost) b,
    call_count-record_usage l a t cost b,
  )

  -- After any calls on an empty ledger, the calls of every account are as many as the sum of its
  -- counts by tier, and as many as the calls that name the account.
  pub call_count-tiers_used :
      (calls : Dict (String × F)) (b : String)
      → let s = snapshot (record_calls calls []) b in
        (s.call_count ≡ total s.tiers_used) × (s.call_count ≡ calls_of b calls)
  unfolding snapshot view lookup new_account
  call_count-tiers_used calls b = (
    record_calls-IsCounted calls [] (λ b. refl) b,
    record_calls-calls_of calls [] b ∙ omega arith,
  )
