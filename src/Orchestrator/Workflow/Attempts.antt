-- ===== src/Orchestrator/Workflow/Attempts.antt =====
-- What an activity's attempts do, whatever becomes of each: how many there are, what they keep, and
-- where a result comes from.
use mathlib.Core.Path.{subst}
use routing.Prelude.{ℕ, zero, suc, ◌≡◌, refl, ◌⊎◌, inl, inr}
use routing.Prelude.Result.{Result, ok, err}
use routing.Matrix.Model.{PyError}
use routing.Orchestrator.Workflow.Exec.{Exc, Exec, pure, raise, continue, ◌>>=◌}
use routing.Orchestrator.Workflow.World.{
  Fate, runs, stalls, breaks, loses_result, never_starts, Attempt, World, Runtime, Body, counted,
  outcome, after, try_once, try_again, activity, retries,
}

-- A property of the state that a part of the workflow keeps, whether it returns or raises.
pub record Keeps {S A : Type 0} (P : S → Type 0) (m : Exec S A) : Type 0 where
  pub at : (s : S) → P s → P (m s).1

module _ {S A : Type 0} {P : S → Type 0} where
  pub Keeps-to : (m : Exec S A) (s t : S) (r : Result Exc A) → Keeps P m → m s ≡ (r, t) → P s → P t
  Keeps-to m s t r k e h = subst (λ (q : Result Exc A × S). P q.1) e (k.at s h)

  pub Keeps-pure : (a : A) → Keeps P (pure a)
  Keeps-pure a = record { at = λ s h. h }

  pub Keeps-raise : (e : Exc) → Keeps P (raise {A = A} e)
  Keeps-raise e = record { at = λ s h. h }

module _ {S A B : Type 0} {P : S → Type 0} where
  continue-keeps :
      (f : A → Exec S B) (r : Result Exc A) (s : S)
      → ((a : A) → Keeps P (f a))
      → P s
      → P (continue f (r, s)).1
  unfolding continue
  continue-keeps f (ok a) s k h = (k a).at s h
  continue-keeps f (err e) s k h = h

  pub Keeps-bind :
      (first : Exec S A) (next : A → Exec S B)
      → Keeps P first
      → ((x : A) → Keeps P (next x))
      → Keeps P (first >>= next)
  unfolding ◌>>=◌
  Keeps-bind first next here there = record {
    at = λ w p. let (r, t) = first w in continue-keeps next r t there (here.at w p);
  }

module _ {S A B : Type 0} where
  -- A result of a sequence is one of its second part.
  pub >>=-ok :
      (m : Exec S A) (f : A → Exec S B) (s s' : S) (b : B)
      → (m >>= f) s ≡ (ok b, s')
      → (a : A) × (t : S) × (m s ≡ (ok a, t)) × (f a t ≡ (ok b, s'))
  unfolding ◌>>=◌
  >>=-ok m f s s' b h = inverted (m s) refl h
    where
      inverted :
          (q : Result Exc A × S)
          → m s ≡ q
          → continue f q ≡ (ok b, s')
          → (a : A) × (t : S) × (m s ≡ (ok a, t)) × (f a t ≡ (ok b, s'))
      inverted (ok a, t) e h = (a, t, e, h)
      inverted (err x, t) e h = absurd (cc)

  -- An exception of a sequence is one of its parts.
  pub >>=-err :
      (m : Exec S A) (f : A → Exec S B) (s s' : S) (x : Exc)
      → (m >>= f) s ≡ (err x, s')
      → (m s ≡ (err x, s')) ⊎ ((a : A) × (t : S) × (m s ≡ (ok a, t)) × (f a t ≡ (err x, s')))
  unfolding ◌>>=◌
  >>=-err m f s s' x h = inverted (m s) refl h
    where
      inverted :
          (q : Result Exc A × S)
          → m s ≡ q
          → continue f q ≡ (err x, s')
          → (m s ≡ (err x, s')) ⊎ ((a : A) × (t : S) × (m s ≡ (ok a, t)) × (f a t ≡ (err x, s')))
      inverted (ok a, t) e h = inr (a, t, e, h)
      inverted (err y, t) e h = inl (cc)

module _ {F S A : Type 0} (rt : Runtime F S) (P : World F S → Type 0) (body : Body F S A) where
  module _ (counts : (w : World F S) → P w → P (counted rt w))
      (step : (a : Attempt F) (w : World F S) → P w → P (body a w).1) where
    outcome-keeps :
        (fate : Fate) (q : Result PyError A × World F S) (w : World F S)
        → P q.1
        → P w
        → P (outcome rt fate q w).1
    outcome-keeps runs (r, w') w h k = h
    outcome-keeps loses_result (r, w') w h k = h
    outcome-keeps stalls (r, w') w h k = k
    outcome-keeps (breaks pe) (r, w') w h k = k
    outcome-keeps never_starts (r, w') w h k = k

    try_once-keeps : (a : Attempt F) (w : World F S) → P w → P (try_once rt a body w).1
    unfolding try_once
    try_once-keeps a w h = outcome-keeps a.fate (body a w) w (step a w h) h

    after-keeps :
        (fate : Fate) (again : Exec (World F S) A) (q : Result Exc A × World F S)
        → P q.1
        → ((w : World F S) → P w → P (again w).1)
        → P (after rt fate again q).1
    after-keeps fate again (ok a, w) h k = h
    after-keeps runs again (err e, w) h k = k w h
    after-keeps stalls again (err e, w) h k = k w h
    after-keeps (breaks pe) again (err e, w) h k = k w h
    after-keeps loses_result again (err e, w) h k = k w h
    after-keeps never_starts again (err e, w) h k = h

    try_again-keeps : (n : ℕ) (w : World F S) → P w → P (try_again rt n body w).1
    unfolding try_again
    try_again-keeps zero w h = try_once-keeps (rt.attempts w.tick) (counted rt w) (counts w h)
    try_again-keeps (suc n) w h =
        let a = rt.attempts w.tick in
        after-keeps a.fate (λ w'. try_again rt n body w') (try_once rt a body (counted rt w))
          (try_once-keeps a (counted rt w) (counts w h)) (λ w' h'. try_again-keeps n w' h')

    pub activity-Keeps : Keeps P (activity rt body)
    unfolding activity
    activity-Keeps = record { at = λ w h. try_again-keeps retries w h }

module _ {F S A : Type 0} (rt : Runtime F S) where
  outcome-ok :
      (fate : Fate) (q : Result PyError A × World F S) (w w' : World F S) (v : A)
      → outcome rt fate q w ≡ (ok v, w')
      → q ≡ (ok v, w')
  outcome-ok runs (ok a, t) w w' v h = cc
  outcome-ok runs (err e, t) w w' v h = absurd (cc)
  outcome-ok loses_result (r, t) w w' v h = absurd (cc)
  outcome-ok stalls q w w' v h = absurd (cc)
  outcome-ok (breaks pe) q w w' v h = absurd (cc)
  outcome-ok never_starts q w w' v h = absurd (cc)

  after-ok :
      (fate : Fate) (again : Exec (World F S) A) (q : Result Exc A × World F S) (w' : World F S)
      (v : A)
      → after rt fate again q ≡ (ok v, w')
      → (q ≡ (ok v, w')) ⊎ (again q.1 ≡ (ok v, w'))
  after-ok fate again (ok a, w) w' v h = inl h
  after-ok runs again (err e, w) w' v h = inr h
  after-ok stalls again (err e, w) w' v h = inr h
  after-ok (breaks pe) again (err e, w) w' v h = inr h
  after-ok loses_result again (err e, w) w' v h = inr h
  after-ok never_starts again (err e, w) w' v h = absurd (cc)

module _ {F S A : Type 0} (rt : Runtime F S) (P : World F S → Type 0) (body : Body F S A)
    (counts : (w : World F S) → P w → P (counted rt w))
    (step : (a : Attempt F) (w : World F S) → P w → P (body a w).1) where
  -- A result comes from an attempt that ran, on a state that has the property, and the state is what
  -- that attempt left.
  abbrev pub RanLast : A → World F S → Type 0
  RanLast v w' = (a : Attempt F) × (w : World F S) × P w × (body a w ≡ (ok v, w'))

  try_again-ok :
      (n : ℕ) (w w' : World F S) (v : A) → P w → try_again rt n body w ≡ (ok v, w') → RanLast v w'
  unfolding try_again try_once
  try_again-ok zero w w' v p h =
      let a = rt.attempts w.tick in
      let w1 = counted rt w in (a, w1, counts w p, outcome-ok rt a.fate (body a w1) w1 w' v h)
  try_again-ok (suc n) w w' v p h =
      let a = rt.attempts w.tick in
      let w1 = counted rt w in
      let q = try_once rt a body w1 in
      elim (after-ok rt a.fate (λ t. try_again rt n body t) q w' v h) [
        | inl now ↦ (a, w1, counts w p, outcome-ok rt a.fate (body a w1) w1 w' v now)
        | inr later ↦
            try_again-ok n q.1 w' v (try_once-keeps rt P body counts step a w1 (counts w p)) later
      ]

  pub activity-ok :
      (w w' : World F S) (v : A) → P w → activity rt body w ≡ (ok v, w') → RanLast v w'
  unfolding activity
  activity-ok w w' v p h = try_again-ok retries w w' v p h
