-- ===== src/Orchestrator/Workflow/Blind.antt =====
-- What a part of the workflow of orchestrator/workflow.py does on two states that differ in the rate
-- limiter only.
pub mod Limiter
use mathlib.Core.Path.{subst}
use routing.Prelude.{ℕ, zero, suc, ◌+◌, ◌≡◌, refl, sym, ◌∙◌, ap, Bool, true, false, Option}
use routing.Prelude.Result.{Result, ok, err, ok_injective, err_injective}
use routing.Matrix.Model.{PyError}
use routing.Orchestrator.RateLimit.{TokenBucketLimiter}
use routing.Orchestrator.Workflow.Exec.{Exc, Exec, pure, raise, continue, ◌>>=◌}
use routing.Orchestrator.Workflow.World.{
  Fate, runs, stalls, breaks, loses_result, never_starts, Attempt, World, Runtime, Body, counted,
  report, outcome, after, try_once, try_again, activity, retries,
}

-- The result as far as it is looked at.
abbrev pub seen {ℓ κ μ} : {E : Type μ} {A : Type ℓ} {B : Type κ} → (A → B) → Result E A → Result E B
seen f (ok a) = ok (f a)
seen f (err e) = err e

module _ {F S : Type 0} where
  abbrev pub set_limiter : Option (TokenBucketLimiter F) → World F S → World F S
  set_limiter l w = record w { rate_limiter = l }

  -- Two outcomes with the same result, as far as it is looked at, and states that differ in the
  -- limiter only.
  pub record Alike {E A B : Type 0} (f : A → B) (p q : Result E A × World F S) : Type 0 where
    pub limiter : Option (TokenBucketLimiter F)
    pub result_eq : seen f p.0 ≡ seen f q.0
    pub state_eq : p.1 ≡ set_limiter limiter q.1

-- The limiter makes no difference but to itself.
pub record Blind {F S A B : Type 0} (f : A → B) (m : Exec (World F S) A) : Type 0 where
  pub at : (w : World F S) (l : Option (TokenBucketLimiter F)) → Alike f (m (set_limiter l w)) (m w)

ok≢err : {E A : Type 0} (a : A) (e : E) → ¬ (ok a ≡ err e)
ok≢err a e h = cc

module _ {F S A B C D : Type 0} {f : A → B} {h : C → D} where
  continue-Alike :
      (g : A → Exec (World F S) C) (p q : Result Exc A × World F S)
      → ((a b : A) → f a ≡ f b → g a ≡ g b)
      → ((a : A) → Blind h (g a))
      → Alike f p q
      → Alike h (continue g p) (continue g q)
  unfolding continue
  continue-Alike g (ok a, s) (ok b, t) same blind k =
      let e : f a ≡ f b = ok_injective (ok (f a)) (f a) (f b) refl k.result_eq in
      let moved : g a s ≡ g b (set_limiter k.limiter t) = λ i. same a b e i (k.state_eq i) in
      subst (λ q. Alike h q (g b t)) (sym moved) ((blind b).at t k.limiter)
  continue-Alike g (err e, s) (err x, t) same blind k = record {
    limiter = k.limiter;
    result_eq = ap err (err_injective {A = B} (err e) e x refl k.result_eq);
    state_eq = k.state_eq;
  }
  continue-Alike g (ok a, s) (err x, t) same blind k = absurd (ok≢err (f a) x k.result_eq)
  continue-Alike g (err e, s) (ok b, t) same blind k = absurd (ok≢err (f b) e (sym k.result_eq))

  pub Blind-bind :
      (m : Exec (World F S) A) (g : A → Exec (World F S) C)
      → Blind f m
      → ((a b : A) → f a ≡ f b → g a ≡ g b)
      → ((a : A) → Blind h (g a))
      → Blind h (m >>= g)
  unfolding ◌>>=◌
  Blind-bind m g bm same bg = record {
    at = λ w l. continue-Alike g (m (set_limiter l w)) (m w) same bg (bm.at w l);
  }

module _ {F S A C D : Type 0} {h : C → D} where
  -- The sequence after a part whose whole result is looked at.
  pub Blind-then :
      (m : Exec (World F S) A) (g : A → Exec (World F S) C)
      → Blind (λ a. a) m
      → ((a : A) → Blind h (g a))
      → Blind h (m >>= g)
  Blind-then m g bm bg = Blind-bind m g bm (λ a b e. ap g e) bg

module _ {F S A : Type 0} where
  -- What gives the same result, and changes nothing by the limiter.
  pub Blind-same :
      (m : Exec (World F S) A)
      → ((w : World F S) (l : Option (TokenBucketLimiter F))
          → m (set_limiter l w) ≡ ((m w).0, set_limiter l (m w).1))
      → Blind (λ a. a) m
  Blind-same m same = record {
    at = λ w l. record {
      limiter = l;
      result_eq = ap (λ q. seen (λ a. a) q.0) (same w l);
      state_eq = ap (λ q. q.1) (same w l);
    };
  }

  pub Blind-pure : (a : A) → Blind (λ (x : A). x) (pure {S = World F S} a)
  Blind-pure a = Blind-same (pure a) (λ w l. refl)

  pub Blind-raise : (e : Exc) → Blind (λ (x : A). x) (raise {S = World F S} e)
  Blind-raise e = Blind-same (raise e) (λ w l. refl)

-- The same thing done on states that differ in the limiter.
again-Alike :
    {F S A B : Type 0} {f : A → B} (again : Exec (World F S) A) (s t : World F S)
    → Blind f again
    → (l : Option (TokenBucketLimiter F)) → s ≡ set_limiter l t
    → Alike f (again s) (again t)
again-Alike {f} again s t more l e = subst (λ w. Alike f (again w) (again t)) (sym e) (more.at t l)

-- What others do does not depend on the limiter, but may change it.
pub record AreHeedless {F S : Type 0} (rt : Runtime F S) : Type 0 where
  pub at :
      (n : ℕ) (w : World F S) (l : Option (TokenBucketLimiter F))
      → (m : Option (TokenBucketLimiter F)) × (rt.others n (set_limiter l w)
          ≡ set_limiter m (rt.others n w))

counted-limiter :
    {F S : Type 0} (rt : Runtime F S)
    → AreHeedless rt
    → (w : World F S) (l : Option (TokenBucketLimiter F))
    → (m : Option (TokenBucketLimiter F)) × (counted rt (set_limiter l w)
        ≡ set_limiter m (counted rt w))
counted-limiter {F} {S} rt h w l =
    let (m, e) = h.at w.tick w l in (m, ap (λ (v : World F S). record v { tick = w.tick + 1 }) e)

module _ {F S A B : Type 0} (f : A → B) (rt : Runtime F S) (heedless : AreHeedless rt)
    (body : Body F S A)
    (blind : (a : Attempt F) (w : World F S) (l : Option (TokenBucketLimiter F))
      → Alike f (body a (set_limiter l w)) (body a w)) where
  report-seen :
      (r s : Result PyError A) → seen f r ≡ seen f s → seen f (report rt r) ≡ seen f (report rt s)
  report-seen (ok a) (ok b) e = ap ok (ok_injective (ok (f a)) (f a) (f b) refl e)
  report-seen (err a) (err b) e =
      ap (λ x. err (rt.failure x)) (err_injective {A = B} (err a) a b refl e)
  report-seen (ok a) (err b) e = absurd (ok≢err (f a) b e)
  report-seen (err a) (ok b) e = absurd (ok≢err (f b) a (sym e))

  outcome-Alike :
      (fate : Fate) (p q : Result PyError A × World F S) (w : World F S)
      (l : Option (TokenBucketLimiter F))
      → Alike f p q
      → Alike f (outcome rt fate p (set_limiter l w)) (outcome rt fate q w)
  outcome-Alike runs (r, s) (r', t) w l k = record {
    limiter = k.limiter;
    result_eq = report-seen r r' k.result_eq;
    state_eq = k.state_eq;
  }
  outcome-Alike loses_result (r, s) (r', t) w l k = record {
    limiter = k.limiter;
    result_eq = refl;
    state_eq = k.state_eq;
  }
  outcome-Alike stalls p q w l k = record { limiter = l; result_eq = refl; state_eq = refl }
  outcome-Alike (breaks pe) p q w l k = record { limiter = l; result_eq = refl; state_eq = refl }
  outcome-Alike never_starts p q w l k = record { limiter = l; result_eq = refl; state_eq = refl }

  try_once-Blind : (a : Attempt F) → Blind f (try_once rt a body)
  unfolding try_once
  try_once-Blind a = record {
    at = λ w l. outcome-Alike a.fate (body a (set_limiter l w)) (body a w) w l (blind a w l);
  }

  after-Alike :
      (fate : Fate) (again : Exec (World F S) A) (p q : Result Exc A × World F S)
      → Blind f again
      → Alike f p q
      → Alike f (after rt fate again p) (after rt fate again q)
  after-Alike fate again (ok a, s) (ok b, t) more k = k
  after-Alike fate again (ok a, s) (err x, t) more k = absurd (ok≢err (f a) x k.result_eq)
  after-Alike fate again (err e, s) (ok b, t) more k = absurd (ok≢err (f b) e (sym k.result_eq))
  after-Alike never_starts again (err e, s) (err x, t) more k = k
  after-Alike runs again (err e, s) (err x, t) more k =
      again-Alike again s t more k.limiter k.state_eq
  after-Alike stalls again (err e, s) (err x, t) more k =
      again-Alike again s t more k.limiter k.state_eq
  after-Alike (breaks pe) again (err e, s) (err x, t) more k =
      again-Alike again s t more k.limiter k.state_eq
  after-Alike loses_result again (err e, s) (err x, t) more k =
      again-Alike again s t more k.limiter k.state_eq

  try_again-Blind : (n : ℕ) → Blind f (try_again rt n body)
  unfolding try_again
  try_again-Blind zero = record {
    at = λ w l.
        let (m, e) = counted-limiter rt heedless w l in
        let a = rt.attempts w.tick in
        again-Alike (try_once rt a body) (counted rt (set_limiter l w)) (counted rt w)
          (try_once-Blind a) m e;
  }
  try_again-Blind (suc n) = record {
    at = λ w l.
        let (m, e) = counted-limiter rt heedless w l in
        let a = rt.attempts w.tick in
        after-Alike a.fate (λ t. try_again rt n body t)
          (try_once rt a body (counted rt (set_limiter l w))) (try_once rt a body (counted rt w))
          (record { at = (try_again-Blind n).at })
          (again-Alike (try_once rt a body) (counted rt (set_limiter l w)) (counted rt w)
            (try_once-Blind a) m e);
  }

  pub activity-Blind : Blind f (activity rt body)
  unfolding activity
  activity-Blind = record { at = (try_again-Blind retries).at }

-- An outcome is seen whole by the identity.
pub seen_id : {E A : Type 0} (r : Result E A) → seen (λ a. a) r ≡ r
seen_id (ok a) = refl
seen_id (err e) = refl
