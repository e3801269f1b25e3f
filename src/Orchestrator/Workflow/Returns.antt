-- ===== src/Orchestrator/Workflow/Returns.antt =====
-- What a part of the workflow of orchestrator/workflow.py returns for certain, where the retries are
-- enough for what becomes of the attempts.
pub mod Served
pub mod Live
use routing.Prelude.{ℕ, zero, suc, ◌+◌, ◌≡◌, refl, sym, ◌∙◌, ap, ◌⊎◌, inl, inr, true, arith}
use mathlib.Core.Path.{subst}
use routing.Prelude.Result.{Result, ok, err}
use routing.Matrix.Model.{PyError}
use routing.Orchestrator.Workflow.Exec.{Exc, Exec, pure, continue, ◌>>=◌}
use routing.Orchestrator.Workflow.World.{
  Fate, runs, stalls, breaks, loses_result, never_starts, Attempt, World, Runtime, Body, may_retry,
  counted, outcome, after, try_once, try_again, activity, retries,
}

-- An outcome that is a result, on a state with the property.
module _ {E S A : Type 0} where
  abbrev pub IsGood : (S → Type 0) → Result E A × S → Type 0
  IsGood P q = (a : A) × (s : S) × (q ≡ (ok a, s)) × P s

-- From every state with the property there is a result, and the property holds again.
pub record Returns {S A : Type 0} (P : S → Type 0) (m : Exec S A) : Type 0 where
  pub at : (s : S) → P s → IsGood P (m s)

module _ {S A B : Type 0} {P : S → Type 0} where
  pub Returns-bind :
      (m : Exec S A) (g : A → Exec S B)
      → Returns P m
      → ((a : A) → Returns P (g a))
      → Returns P (m >>= g)
  unfolding ◌>>=◌ continue
  Returns-bind m g rm rg = record {
    at = λ s p.
        let (a, t, e, q) = rm.at s p in
        let (b, u, e2, r) = (rg a).at t q in (b, u, ap (continue g) e ∙ e2, r);
  }

module _ {S A : Type 0} {P : S → Type 0} where
  pub Returns-pure : (a : A) → Returns P (pure a)
  Returns-pure a = record { at = λ s p. (a, s, refl, p) }

-- Among any three attempts in a row one runs, and a worker takes every attempt in time.
pub record IsPatient {F S : Type 0} (rt : Runtime F S) : Type 0 where
  pub one_runs :
      (n : ℕ)
      → ((rt.attempts n).fate ≡ runs)
        ⊎ (((rt.attempts (n + 1)).fate ≡ runs) ⊎ ((rt.attempts (n + 2)).fate ≡ runs))
  pub taken : (n : ℕ) → may_retry (rt.attempts n).fate ≡ true

module _ {F S A : Type 0} (rt : Runtime F S) (P : World F S → Type 0) where
  -- One attempt that is tried again if it failed.
  after-IsGood :
      (fate : Fate) (again : Exec (World F S) A) (q : Result PyError A × World F S) (w : World F S)
      (n : ℕ)
      → IsGood P q
      → q.1.tick ≡ n
      → P w
      → w.tick ≡ n
      → may_retry fate ≡ true
      → (fate ≡ runs) ⊎ ((u : World F S) → P u → u.tick ≡ n → IsGood P (again u))
      → IsGood P (after rt fate again (outcome rt fate q w))
  after-IsGood runs again (ok a, t) w n (b, s, e, p) tq h tw m more =
      (a, t, refl, subst P (sym (ap (λ x. x.1) e)) p)
  after-IsGood runs again (err x, t) w n (b, s, e, p) tq h tw m more = absurd (cc)
  after-IsGood stalls again q w n good tq h tw m (inl wrong) = absurd (cc)
  after-IsGood (breaks pe) again q w n good tq h tw m (inl wrong) = absurd (cc)
  after-IsGood stalls again q w n good tq h tw m (inr more) = more w h tw
  after-IsGood (breaks pe) again q w n good tq h tw m (inr more) = more w h tw
  after-IsGood loses_result again q w n good tq h tw m (inl wrong) = absurd (cc)
  after-IsGood loses_result again (r, t) w n (b, s, e, p) tq h tw m (inr more) =
      more t (subst P (sym (ap (λ x. x.1) e)) p) tq
  after-IsGood never_starts again q w n good tq h tw m more = absurd (cc)

module _ {F S A : Type 0} (rt : Runtime F S) (patient : IsPatient rt) (P : World F S → Type 0)
    (body : Body F S A) (counts : (w : World F S) → P w → P (counted rt w))
    (same : (a : Attempt F) (w : World F S) → (body a w).1.tick ≡ w.tick)
    (works : (a : Attempt F) (w : World F S) → P w → IsGood P (body a w)) where
  -- One of the attempts from a number on runs.
  OneRuns : ℕ → ℕ → Type 0
  OneRuns zero n = (rt.attempts n).fate ≡ runs
  OneRuns (suc k) n = ((rt.attempts n).fate ≡ runs) ⊎ OneRuns k (n + 1)

  last-IsGood :
      (fate : Fate) (q : Result PyError A × World F S) (w : World F S)
      → fate ≡ runs
      → IsGood P q
      → IsGood P (outcome rt fate q w)
  last-IsGood runs (ok a, t) w h (b, s, e, p) = (a, t, refl, subst P (sym (ap (λ x. x.1) e)) p)
  last-IsGood runs (err x, t) w h (b, s, e, p) = absurd (cc)
  last-IsGood stalls q w h good = absurd (cc)
  last-IsGood (breaks pe) q w h good = absurd (cc)
  last-IsGood loses_result q w h good = absurd (cc)
  last-IsGood never_starts q w h good = absurd (cc)

  try_again-IsGood :
      (k n : ℕ) (w : World F S) → w.tick ≡ n → OneRuns k n → P w → IsGood P (try_again rt k body w)
  unfolding try_again try_once OneRuns
  try_again-IsGood zero n w e one h =
      let a = rt.attempts w.tick in
      let w1 = counted rt w in
      last-IsGood a.fate (body a w1) w1 (ap (λ x. (rt.attempts x).fate) e ∙ one)
        (works a w1 (counts w h))
  try_again-IsGood (suc k) n w e one h =
      let a = rt.attempts w.tick in
      let w1 = counted rt w in
      let good = counts w h in
      after-IsGood rt P a.fate (λ u. try_again rt k body u) (body a w1) w1 (w.tick + 1)
        (works a w1 good) (same a w1) good refl (patient.taken w.tick)
        (elim one [
          | inl now ↦ inl (ap (λ x. (rt.attempts x).fate) e ∙ now)
          | inr later ↦ inr (λ u p t. try_again-IsGood k (n + 1) u (t ∙ ap (λ x. x + 1) e) later p)
        ])

  pub activity-Returns : Returns P (activity rt body)
  unfolding activity OneRuns
  activity-Returns = record { at = λ w h. try_again-IsGood retries w.tick w refl (three w.tick) h }
    where
      three : (n : ℕ) → OneRuns 2 n
      three n = elim (patient.one_runs n) [
        | inl first ↦ inl first
        | inr (inl second) ↦ inr (inl second)
        | inr (inr third) ↦
            let two : n + 1 + 1 ≡ n + 2 = omega arith in
            inr (inr (ap (λ x. (rt.attempts x).fate) two ∙ third))
      ]
