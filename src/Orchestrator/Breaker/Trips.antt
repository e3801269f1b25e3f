-- ===== src/Orchestrator/Breaker/Trips.antt =====
-- When the breaker of orchestrator/circuit_breaker.py is tripped, over any sequence of recordings.
use routing.Prelude.{◌≡◌, refl, ◌∙◌, ap, Bool, false, ◌||◌, not, some, List, [], ◌∷◌, All, arith}
use routing.Prelude.Float.{Float, IsFloat, nought, ◌≼◌, add-le_left}
use routing.Prelude.Result.{ok}
use routing.Orchestrator.Breaker.{
  CircuitBreaker, new_breaker, record_cost, frontier_allowed, effective_degraded,
}

module _ {F : Type 0} ⦃f : Float F⦄ where
  -- The costs recorded one after the other.
  abbrev pub record_all : List F → CircuitBreaker F → CircuitBreaker F
  record_all [] b = b
  record_all (c ∷ cs) b = record_all cs (record_cost c b)

  -- Some running total, from a start, is at or above a threshold.
  unfoldable pub crosses : F → F → List F → Bool
  crosses threshold total [] = false
  crosses threshold total (c ∷ cs) =
      f.le threshold (f.add total c) || crosses threshold (f.add total c) cs

  record_cost_lem :
      (c : F) (b : CircuitBreaker F)
      → ((record_cost c b).tripped ≡ f.le b.rate_threshold (f.add b.aggregate_cost c) || b.tripped)
        × ((record_cost c b).rate_threshold ≡ b.rate_threshold)
        × ((record_cost c b).aggregate_cost ≡ f.add b.aggregate_cost c)
  unfolding record_cost
  record_cost_lem c b = (ground arith, refl, refl)

  -- After any costs the breaker degrades calls exactly if the call was degraded anyway, or it was
  -- tripped before, or some running total of the costs reached the threshold; it then stays so
  -- whatever is recorded, and until then the frontier is allowed.
  pub tripped_iff :
      (cs : List F) (b : CircuitBreaker F) (already : Bool)
      → (effective_degraded (record_all cs b) already
          ≡ already || (b.tripped || crosses b.rate_threshold b.aggregate_cost cs))
        × (frontier_allowed (record_all cs b)
            ≡ not (b.tripped || crosses b.rate_threshold b.aggregate_cost cs))
  unfolding effective_degraded frontier_allowed crosses
  tripped_iff [] b already = ground arith
  tripped_iff (c ∷ cs) b already =
      ground (arith, record_cost_lem c b, tripped_iff cs (record_cost c b) already)

module _ {F : Type 0} ⦃f : Float F⦄ (laws : IsFloat F) where
  Agrees : CircuitBreaker F → Type 0
  Agrees b = b.tripped ≡ f.le b.rate_threshold b.aggregate_cost

  record_cost-Agrees :
      (c : F) (b : CircuitBreaker F) → nought ≼ c → Agrees b → Agrees (record_cost c b)
  unfolding Agrees record_cost
  record_cost-Agrees c b h k = ground (
    arith,
    k,
    add-le_left laws b.aggregate_cost c h,
    laws.le_trans b.rate_threshold b.aggregate_cost (f.add b.aggregate_cost c),
  )

  record_all-Agrees :
      (cs : List F) (b : CircuitBreaker F)
      → All (λ c. nought ≼ c) cs
      → Agrees b
      → Agrees (record_all cs b)
  record_all-Agrees [] b h k = k
  record_all-Agrees (c ∷ cs) b h k =
      record_all-Agrees cs (record_cost c b) h.1 (record_cost-Agrees c b h.0 k)

  record_all-threshold :
      (cs : List F) (b : CircuitBreaker F) → (record_all cs b).rate_threshold ≡ b.rate_threshold
  record_all-threshold [] b = refl
  record_all-threshold (c ∷ cs) b =
      record_all-threshold cs (record_cost c b) ∙ (record_cost_lem c b).1

  new_breaker_lem :
      (t : F) (b : CircuitBreaker F)
      → new_breaker (some t) ≡ ok b
      → (b.rate_threshold ≡ t) × (b.tripped ≡ false)
  unfolding new_breaker
  new_breaker_lem t b e = ground arith

  first-Agrees : (c : F) (b : CircuitBreaker F) → b.tripped ≡ false → Agrees (record_cost c b)
  unfolding Agrees record_cost
  first-Agrees c b h = ground arith

  -- With costs that are not negative, once a cost was recorded by a new breaker, it is tripped
  -- exactly when its aggregate cost is at or above the threshold.
  pub tripped-aggregate :
      (t : F) (b : CircuitBreaker F) (c : F) (cs : List F)
      → new_breaker (some t) ≡ ok b
      → All (λ x. nought ≼ x) (c ∷ cs)
      → let after = record_all (c ∷ cs) b in after.tripped ≡ f.le t after.aggregate_cost
  unfolding Agrees
  tripped-aggregate t b c cs e h =
      let (same, fresh) = new_breaker_lem t b e in
      record_all-Agrees cs (record_cost c b) h.1 (first-Agrees c b fresh)
      ∙ ap (λ x. f.le x (record_all (c ∷ cs) b).aggregate_cost)
          (record_all-threshold (c ∷ cs) b ∙ same)
