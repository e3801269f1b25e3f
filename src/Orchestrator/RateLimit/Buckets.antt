-- ===== src/Orchestrator/RateLimit/Buckets.antt =====
-- What holds of the buckets of orchestrator/rate_limit.py after any calls.
use routing.Prelude.{
  Bool-cases, inl, inr, ◌≡◌, refl, sym, ◌∙◌, ap, String, ◌==◌, false, Option, none, some, List, [],
  ◌∷◌, arith, if◌then◌else◌,
}
use routing.Prelude.Dict.{
  Values, Values-insert, Values-erase, Values-lookup, lookup, insert, lookup-insert,
}
use routing.Prelude.Float.{Float, IsFloat, nought, one, lt, min, max, ◌≼◌, add_nonneg, sub-le}
use routing.Prelude.Result.{ok}
use routing.Orchestrator.RateLimit.{
  TokenBucketLimiter, get_or, new_limiter, refilled, refill, allow, reset,
}

-- A call of the limiter.
pub data Call (F : Type 0) : Type 0 where
  ask : String → F → Call F
  forget : Option String → Call F

module _ {F : Type 0} ⦃f : Float F⦄ where
  unfoldable pub serve : Call F → TokenBucketLimiter F → TokenBucketLimiter F
  serve (ask a now) l = (allow l a now).1
  serve (forget a) l = reset l a

  abbrev pub serve_all : List (Call F) → TokenBucketLimiter F → TokenBucketLimiter F
  serve_all [] l = l
  serve_all (c ∷ cs) l = serve_all cs (serve c l)

  -- No bucket is below nought or above the capacity.
  pub record IsBounded (l : TokenBucketLimiter F) : Type 0 where
    pub rate_pos : nought ≼ l.rate
    pub capacity_pos : nought ≼ l.capacity
    pub held : Values (λ t. (nought ≼ t) × (t ≼ l.capacity)) l.buckets

  -- The account's tokens after a call: what refilled, less one if it was let through.
  pub allow-bucket :
      (l : TokenBucketLimiter F) (a : String) (now : F) (b : String)
      → lookup b (allow l a now).1.buckets ≡ (
          if a == b
          then some
              (if lt (refilled l a now) one then refilled l a now else f.sub (refilled l a now) one)
          else lookup b l.buckets)
  unfolding allow refill
  allow-bucket l a now b = ground (
    arith,
    lookup-insert a b (refilled l a now) l.buckets,
    lookup-insert a b (f.sub (refilled l a now) one) (insert a (refilled l a now) l.buckets),
  )

  pub allow-updated :
      (l : TokenBucketLimiter F) (a : String) (now : F) (b : String)
      → lookup b (allow l a now).1.updated ≡ (if a == b then some now else lookup b l.updated)
  unfolding allow refill
  allow-updated l a now b = ground (arith, lookup-insert a b now l.updated)

  pub allow-config :
      (l : TokenBucketLimiter F) (a : String) (now : F)
      → ((allow l a now).1.rate ≡ l.rate)
        × ((allow l a now).1.capacity ≡ l.capacity)
        × ((allow l a now).0 ≡ f.le one (refilled l a now))
  unfolding allow refill
  allow-config l a now = ground arith

  refilled-other :
      (l : TokenBucketLimiter F) (a : String) (now : F) (b : String) (t : F)
      → (a == b) ≡ false
      → refilled (allow l a now).1 b t ≡ refilled l b t
  unfolding refilled
  refilled-other l a now b t e =
      let bucket = rw e at (allow-bucket l a now b) in
      let updated = rw e at (allow-updated l a now b) in
      let (rate, capacity, answer) = allow-config l a now in
      rw (bucket, updated, rate, capacity) refl

  -- A call for an account does not change what a call for another account after it is answered, at
  -- whatever time.
  pub allow-other :
      (l : TokenBucketLimiter F) (a : String) (now : F) (b : String) (t : F)
      → (a == b) ≡ false
      → (allow (allow l a now).1 b t).0 ≡ (allow l b t).0
  allow-other l a now b t e =
      (allow-config (allow l a now).1 b t).2
      ∙ ap (f.le one) (refilled-other l a now b t e)
      ∙ sym (allow-config l b t).2

module _ {F : Type 0} ⦃f : Float F⦄ (laws : IsFloat F) where
  open laws use {
    le_refl, le_total, sub_mono, mul_nonneg, sub_self, mul_nought, add_nought, sub_whole, lt_whole,
  }

  min-le : (x y : F) → min x y ≼ x
  min-le x y = ground (arith, le_refl x, le_total x y)

  le-min : (u x y : F) → u ≼ x → u ≼ y → u ≼ min x y
  le-min u x y h k = ground arith

  le-max : (x y : F) → x ≼ max x y
  le-max x y = ground (arith, le_refl x, le_total x y)

  get_or-nonneg :
      (c : F) (o : Option F)
      → nought ≼ c
      → ((t : F) → o ≡ some t → nought ≼ t)
      → nought ≼ get_or c o
  get_or-nonneg c none h k = h
  get_or-nonneg c (some t) h k = k t refl

  refilled-bounds :
      (l : TokenBucketLimiter F) (a : String) (now : F)
      → IsBounded l
      → (nought ≼ refilled l a now) × (refilled l a now ≼ l.capacity)
  unfolding refilled
  refilled-bounds l a now h =
      let elapsed = max nought (f.sub now (get_or now (lookup a l.updated))) in
      let start =
        get_or-nonneg l.capacity (lookup a l.buckets) h.capacity_pos (λ t e.
          (Values-lookup (λ t. (nought ≼ t) × (t ≼ l.capacity)) a t l.buckets h.held e).0) in
      (
        le-min nought l.capacity _ h.capacity_pos
            (add_nonneg laws _ _ start (mul_nonneg elapsed l.rate (le-max nought _) h.rate_pos)),
        min-le l.capacity _,
      )

  spent-bounds :
      (cap x : F)
      → nought ≼ x
      → x ≼ cap
      → let t = if lt x one then x else f.sub x one in (nought ≼ t) × (t ≼ cap)
  spent-bounds cap x h k = ground (
    arith,
    sub_mono one x one,
    sub_self one,
    sub-le laws x one (laws.le_dec 0 10_000 (omega arith)),
    laws.le_trans (f.sub x one) x cap,
  )

  -- The buckets after a call.
  allow-Values :
      (P : F → Type 0) (l : TokenBucketLimiter F) (a : String) (now : F)
      → let x = refilled l a now in
        P x
        → P (if lt x one then x else f.sub x one)
        → Values P l.buckets
        → Values P (allow l a now).1.buckets
  unfolding allow refill
  allow-Values P l a now hx hy h =
      let x = refilled l a now in
      let stored = Values-insert P a x l.buckets hx h in
      elim (Bool-cases (f.le one x)) [
        | inl enough ↦
            rw enough
              (Values-insert P a (f.sub x one) (insert a x l.buckets) (rw enough at hy) stored)
        | inr few ↦ rw few stored
      ]

  allow-IsBounded :
      (l : TokenBucketLimiter F) (a : String) (now : F) → IsBounded l → IsBounded (allow l a now).1
  allow-IsBounded l a now h =
      let (rate, capacity, answer) = allow-config l a now in
      let (low, high) = refilled-bounds l a now h in
      record {
        rate_pos = rw rate h.rate_pos;
        capacity_pos = rw capacity h.capacity_pos;
        held = rw capacity (
            allow-Values (λ t. (nought ≼ t) × (t ≼ l.capacity)) l a now (low, high)
              (spent-bounds l.capacity (refilled l a now) low high) h.held);
      }

  reset-IsBounded :
      (l : TokenBucketLimiter F) (a : Option String) → IsBounded l → IsBounded (reset l a)
  unfolding reset lookup
  reset-IsBounded l none h = record {
    rate_pos = h.rate_pos;
    capacity_pos = h.capacity_pos;
    held = tt;
  }
  reset-IsBounded l (some a) h = record {
    rate_pos = h.rate_pos;
    capacity_pos = h.capacity_pos;
    held = Values-erase _ a l.buckets h.held;
  }

  new_limiter-buckets :
      (r c : F) (l : TokenBucketLimiter F) → new_limiter r c ≡ ok l → l.buckets ≡ []
  unfolding new_limiter
  new_limiter-buckets r c l e = ground arith

  new_limiter-IsBounded :
      (r c : F) (l : TokenBucketLimiter F) → new_limiter r c ≡ ok l → IsBounded l
  unfolding new_limiter lookup
  new_limiter-IsBounded r c l e = record {
    rate_pos = ground (arith, le_total r nought);
    capacity_pos = ground (arith, le_total c nought);
    held = rw (new_limiter-buckets r c l e) tt;
  }

  serve-IsBounded : (c : Call F) (l : TokenBucketLimiter F) → IsBounded l → IsBounded (serve c l)
  unfolding serve
  serve-IsBounded (ask a now) l h = allow-IsBounded l a now h
  serve-IsBounded (forget a) l h = reset-IsBounded l a h

  serve_all-IsBounded :
      (cs : List (Call F)) (l : TokenBucketLimiter F) → IsBounded l → IsBounded (serve_all cs l)
  serve_all-IsBounded [] l h = h
  serve_all-IsBounded (c ∷ cs) l h = serve_all-IsBounded cs (serve c l) (serve-IsBounded c l h)

  -- After any calls of a limiter that was made with some rate and capacity, whatever the clock does
  -- between them, no bucket is below nought or above the capacity of the limiter.
  pub limiter-IsBounded :
      (r c : F) (l : TokenBucketLimiter F) (cs : List (Call F))
      → new_limiter r c ≡ ok l
      → IsBounded (serve_all cs l)
  limiter-IsBounded r c l cs e = serve_all-IsBounded cs l (new_limiter-IsBounded r c l e)
