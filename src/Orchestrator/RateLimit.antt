-- ===== src/Orchestrator/RateLimit.antt =====
-- orchestrator/rate_limit.py: a token bucket for each account. `now` is the monotonic clock's time
-- at the call. Each method holds the lock throughout, so a method is one step.
pub mod Buckets
pub mod Burst
use routing.Prelude.{String, Bool, true, false, ◌||◌, Option, none, some, [], if◌then◌else◌}
use routing.Prelude.Dict.{Dict, lookup, insert, erase}
use routing.Prelude.Float.{Float, nought, one, lt, min, max}
use routing.Prelude.Result.{Result, ok, err}
use routing.Matrix.Model.{PyError, value_error, rate_limit_exceeded}

pub record TokenBucketLimiter (F : Type 0) : Type 0 where
  pub rate : F
  pub capacity : F
  pub buckets : Dict F
  pub updated : Dict F

-- `d.get(k, default)`
abbrev pub get_or {ℓ} : {A : Type ℓ} → A → Option A → A
get_or d none = d
get_or d (some a) = a

module _ {F : Type 0} ⦃f : Float F⦄ where
  -- `TokenBucketLimiter.__init__`
  unfoldable pub new_limiter : F → F → Result PyError (TokenBucketLimiter F)
  new_limiter rate capacity =
      if f.le rate nought || f.le capacity nought
      then err (value_error "rate and capacity must be positive")
      else ok (record { rate = rate; capacity = capacity; buckets = []; updated = [] })

  -- The tokens that `_tokens` computes and stores.
  unfoldable pub refilled : TokenBucketLimiter F → String → F → F
  refilled l account_id now =
      let tokens = get_or l.capacity (lookup account_id l.buckets) in
      let last = get_or now (lookup account_id l.updated) in
      let elapsed = max nought (f.sub now last) in
      min l.capacity (f.add tokens (f.mul elapsed l.rate))

  -- `_tokens`
  unfoldable pub refill : TokenBucketLimiter F → String → F → F × TokenBucketLimiter F
  unfolding refilled
  refill l account_id now =
      let tokens = refilled l account_id now in
      (
        tokens,
        record l {
          buckets = insert account_id tokens l.buckets;
          updated = insert account_id now l.updated;
        },
      )

  -- `allow`
  unfoldable pub allow : TokenBucketLimiter F → String → F → Bool × TokenBucketLimiter F
  unfolding refill
  allow l account_id now =
      let (tokens, l') = refill l account_id now in
      if lt tokens one
      then (false, l')
      else (true, record l' { buckets = insert account_id (f.sub tokens one) l'.buckets })

  unfoldable pub acquire :
      TokenBucketLimiter F → String → F → Result PyError (Unit {0}) × TokenBucketLimiter F
  unfolding allow
  acquire l account_id now =
      let (allowed, l') = allow l account_id now in
      (if allowed then ok tt else err (rate_limit_exceeded account_id), l')

module _ {F : Type 0} where
  unfoldable pub reset : TokenBucketLimiter F → Option String → TokenBucketLimiter F
  reset l none = record l { buckets = []; updated = [] }
  reset l (some account_id) = record l {
    buckets = erase account_id l.buckets;
    updated = erase account_id l.updated;
  }
