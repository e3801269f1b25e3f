-- ===== src/Orchestrator/Breaker.antt =====
-- orchestrator/circuit_breaker.py: the breaker on the spend of all accounts. Each method holds the
-- lock throughout, so a method is one step.
pub mod Trips
use routing.Prelude.{Bool, true, false, not, ◌||◌, Option, none, some, if◌then◌else◌}
use routing.Prelude.Float.{Float, nought, lt}
use routing.Prelude.Result.{Result, ok, err}
use routing.Matrix.Model.{PyError, value_error}

pub record CircuitBreaker (F : Type 0) : Type 0 where
  pub rate_threshold : F
  pub aggregate_cost : F
  pub tripped : Bool

module _ {F : Type 0} ⦃f : Float F⦄ where
  -- `CircuitBreaker.__init__`
  unfoldable pub new_breaker : Option F → Result PyError (CircuitBreaker F)
  new_breaker none = err (value_error "rate_threshold must be a non-negative number")
  new_breaker (some t) =
      if lt t nought
      then err (value_error "rate_threshold must be a non-negative number")
      else ok (record { rate_threshold = t; aggregate_cost = nought; tripped = false })

  unfoldable pub record_cost : F → CircuitBreaker F → CircuitBreaker F
  record_cost cost b =
      let total = f.add b.aggregate_cost cost in
      record b {
        aggregate_cost = total;
        tripped = if f.le b.rate_threshold total then true else b.tripped;
      }

  unfoldable pub reset : CircuitBreaker F → CircuitBreaker F
  reset b = record b { aggregate_cost = nought; tripped = false }

module _ {F : Type 0} where
  unfoldable pub frontier_allowed : CircuitBreaker F → Bool
  frontier_allowed b = not b.tripped

  unfoldable pub effective_degraded : CircuitBreaker F → Bool → Bool
  effective_degraded b already_degraded = already_degraded || b.tripped
