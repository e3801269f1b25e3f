-- ===== src/Orchestrator/RateLimit/Burst.antt =====
-- How many calls at one time a bucket of orchestrator/rate_limit.py lets through.
use routing.Prelude.{
  ℕ, zero, suc, ◌*◌, ◌≤◌, ◌<◌, ◌≡◌, refl, ◌∙◌, ap, String, eq_refl, Bool, true, false, some, List,
  [], ◌∷◌, arith,
}
use routing.Prelude.Dict.{lookup}
use routing.Prelude.Float.{Float, IsFloat, nought, one, min, max}
use routing.Prelude.Result.{ok}
use routing.Orchestrator.RateLimit.{TokenBucketLimiter, new_limiter, refilled, allow}
use routing.Orchestrator.RateLimit.Buckets.{allow-bucket, allow-updated, allow-config}

module _ {F : Type 0} ⦃f : Float F⦄ where
  -- The answers to a number of calls for an account at one time.
  unfoldable pub answers : ℕ → String → F → TokenBucketLimiter F → List Bool
  answers zero a now l = []
  answers (suc n) a now l = (allow l a now).0 ∷ answers n a now (allow l a now).1

abbrev pub all_but_last : ℕ → List Bool
all_but_last zero = false ∷ []
all_but_last (suc n) = true ∷ all_but_last n

module _ {F : Type 0} ⦃f : Float F⦄ (laws : IsFloat F) where
  open laws use {sub_self, mul_nought, add_nought, sub_whole, lt_whole}

  -- A limiter whose account has some whole tokens left, at a time that it saw.
  record Holds (n k : ℕ) (a : String) (now : F) (l : TokenBucketLimiter F) : Type 0 where
    pub cap_eq : l.capacity ≡ f.dec (n * 10_000)
    pub left : refilled l a now ≡ f.dec (k * 10_000)

  max-same : (x : F) → max x x ≡ x
  max-same x = ground arith

  still :
      (l : TokenBucketLimiter F) (t : F)
      → min l.capacity (f.add t (f.mul (max nought nought) l.rate)) ≡ min l.capacity t
  still l t =
      ap (λ e. min l.capacity (f.add t (f.mul e l.rate))) (max-same nought)
      ∙ ap (min l.capacity) (ap (f.add t) (mul_nought l.rate) ∙ add_nought t)

  -- At the same time nothing refills.
  refilled_again :
      (l : TokenBucketLimiter F) (a : String) (now t : F)
      → lookup a l.buckets ≡ some t
      → lookup a l.updated ≡ some now
      → refilled l a now ≡ min l.capacity t
  unfolding refilled
  refilled_again l a now t h k = rw (h, k, sub_self now) (still l t)

  min-whole :
      (n k : ℕ)
      → k < n
      → n ≤ 9_007_199_254_740_992
      → min (f.dec (n * 10_000)) (f.dec (k * 10_000)) ≡ f.dec (k * 10_000)
  min-whole n k h b = ground (arith, lt_whole k n h b)

  allow-Holds :
      (n k : ℕ) (a : String) (now : F) (l : TokenBucketLimiter F)
      → suc k ≤ n
      → n ≤ 9_007_199_254_740_992
      → Holds n (suc k) a now l
      → ((allow l a now).0 ≡ true) × Holds n k a now (allow l a now).1
  allow-Holds n k a now l h b x =
      let (rate, capacity, answer) = allow-config l a now in
      let enough : f.le one (refilled l a now) ≡ true =
        ap (f.le one) x.left ∙ laws.le_dec 10_000 (suc k * 10_000) (omega arith) in
      let spent : lookup a (allow l a now).1.buckets ≡ some (f.dec (k * 10_000)) =
        allow-bucket l a now a
        ∙ rw (eq_refl a, enough, x.left) (ap some (sub_whole k (omega (arith, h, b)))) in
      let seen : lookup a (allow l a now).1.updated ≡ some now =
        allow-updated l a now a ∙ rw (eq_refl a) refl in
      (
        answer ∙ enough,
        record {
          cap_eq = capacity ∙ x.cap_eq;
          left =
              refilled_again (allow l a now).1 a now (f.dec (k * 10_000)) spent seen
              ∙ ap (λ c. min c (f.dec (k * 10_000))) (capacity ∙ x.cap_eq)
              ∙ min-whole n k (omega (arith, h)) b;
        },
      )

  answers-Holds :
      (n k : ℕ) (a : String) (now : F) (l : TokenBucketLimiter F)
      → k ≤ n
      → n ≤ 9_007_199_254_740_992
      → Holds n k a now l
      → answers (suc k) a now l ≡ all_but_last k
  unfolding answers
  answers-Holds n zero a now l h b x =
      let denied =
        (allow-config l a now).2
        ∙ ap (f.le one) x.left
        ∙ lt_whole 0 1 (omega arith) (omega arith) in
      λ i. denied i ∷ []
  answers-Holds n (suc k) a now l h b x =
      let (admitted, next) = allow-Holds n k a now l h b x in
      let rest = answers-Holds n k a now (allow l a now).1 (omega (arith, h)) b next in
      λ i. admitted i ∷ rest i

  new_limiter_lem :
      (r c : F) (l : TokenBucketLimiter F)
      → new_limiter r c ≡ ok l
      → (l.capacity ≡ c) × (l.buckets ≡ []) × (l.updated ≡ [])
  unfolding new_limiter
  new_limiter_lem r c l e = ground arith

  refilled_new :
      (l : TokenBucketLimiter F) (a : String) (now : F)
      → l.buckets ≡ []
      → l.updated ≡ []
      → refilled l a now ≡ l.capacity
  unfolding refilled lookup
  refilled_new l a now h k = rw (h, k, sub_self now) (still l l.capacity ∙ ground arith)

  -- A new limiter with room for `n` tokens lets `n` calls of an account at one time through, and
  -- not the next one.
  pub answers-burst :
      (r : F) (n : ℕ) (a : String) (now : F) (l : TokenBucketLimiter F)
      → n ≤ 9_007_199_254_740_992
      → new_limiter r (f.dec (n * 10_000)) ≡ ok l
      → answers (suc n) a now l ≡ all_but_last n
  answers-burst r n a now l b e =
      let (cap, empty, unseen) = new_limiter_lem r (f.dec (n * 10_000)) l e in
      answers-Holds n n a now l (omega arith) b
        (record { cap_eq = cap; left = refilled_new l a now empty unseen ∙ cap })
