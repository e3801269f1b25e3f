-- ===== src/Matrix/Route.antt =====
-- routing_matrix/core.py: `route`. The decision logger is a list of the payloads that it was given.
pub mod Table
use routing.Prelude.{String, Bool, true, false, Option, List, [], ◌∷◌, ◌++◌, ◌&&◌, if◌then◌else◌}
use routing.Prelude.Float.{Float}
use routing.Prelude.Result.{Result, ok, err}
use routing.Matrix.Model.{
  Tier, standard, advanced, frontier, Task, Rationale, escalated, classified_standard,
  classified_tier, capped, RoutingDecision, CostModel, cost_for, PyError,
}
use routing.Matrix.Classifier.{Classification, classify}
use routing.Matrix.Tiers.{Environ, resolve_model_pointer}

pub record RouteEntry (F : Type 0) : Type 0 where
  pub task : Task
  pub decision : RoutingDecision F

abbrev pub is_frontier : Tier → Bool
is_frontier frontier = true
is_frontier _ = false

abbrev pub is_standard : Tier → Bool
is_standard standard = true
is_standard _ = false

unfoldable pub explain : Classification → Rationale
explain c =
    if is_standard c.tier
    then classified_standard c.signal
    else classified_tier c.tier c.score c.signal

-- The tier and the rationale before the cap.
unfoldable pub propose : Task → Tier × Rationale
unfolding explain
propose task =
    let c = classify task in
    if task.escalate then (frontier, escalated task.failure_context) else (c.tier, explain c)

-- The degraded cap.
unfoldable pub cap_tier : Bool → Tier × Rationale → Tier × Rationale
cap_tier degraded (tier, rationale) =
    if degraded && is_frontier tier then (advanced, capped rationale) else (tier, rationale)

module _ {F : Type 0} where
  unfoldable pub decide : CostModel F → Bool → Tier × Rationale → String → RoutingDecision F
  unfolding cost_for
  decide cost_model degraded (tier, rationale) pointer = record {
    tier = tier;
    model_pointer = pointer;
    rationale = rationale;
    degraded = degraded;
    estimated_cost = cost_for cost_model tier;
  }

  -- The payload is logged once the decision is made.
  unfoldable pub log_decision :
      Task
      → List (RouteEntry F)
      → CostModel F
      → Bool
      → Tier × Rationale
      → Result PyError String
      → Result PyError (RoutingDecision F) × List (RouteEntry F)
  unfolding decide
  log_decision task log cost_model degraded choice (err e) = (err e, log)
  log_decision task log cost_model degraded choice (ok pointer) =
      let decision = decide cost_model degraded choice pointer in
      (ok decision, log ++ (record { task = task; decision = decision } ∷ []))

  unfoldable pub route :
      Environ
      → CostModel F
      → Task
      → Bool
      → List (RouteEntry F)
      → Result PyError (RoutingDecision F) × List (RouteEntry F)
  unfolding propose cap_tier log_decision
  route env cost_model task degraded log =
      let choice = cap_tier degraded (propose task) in
      log_decision task log cost_model degraded choice (resolve_model_pointer env choice.0)
