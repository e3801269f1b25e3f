-- ===== src/Orchestrator/Costing/Bound.antt =====
-- The projection of orchestrator/costing.py against the cost that `route` settles.
use routing.Prelude.{◌≡◌, refl, sym, ◌∙◌, ap, Bool, true, false, List, arith, if◌then◌else◌}
use routing.Prelude.Float.{Float, IsFloat, ◌≼◌}
use routing.Prelude.Result.{ok}
use routing.Matrix.Model.{
  Tier, standard, advanced, frontier, Task, RoutingDecision, cost_for, default_cost_model,
}
use routing.Matrix.Tiers.{Environ}
use routing.Matrix.Route.{RouteEntry, route}
use routing.Matrix.Route.Table.{chosen_tier, route_cost}
use routing.Matrix.Classifier.{classify}
use routing.Matrix.Classifier.Score.{classify_by_score, score_of, tier_for}
use routing.Orchestrator.Costing.{frontier_cost, tier_cost, project_cost}

module _ {F : Type 0} ⦃f : Float F⦄ where
  tier_cost_lem : (t : Tier) → tier_cost t ≡ cost_for {F = F} default_cost_model t
  unfolding tier_cost cost_for
  tier_cost_lem standard = refl
  tier_cost_lem advanced = refl
  tier_cost_lem frontier = refl

  asked :
      (escalate : Bool) (t u : Tier)
      → t ≡ u
      → (if escalate then frontier_cost else tier_cost t)
        ≡ cost_for {F = F} default_cost_model (if escalate then frontier else u)
  unfolding cost_for
  asked true t u h = refl
  asked false t u h = ap tier_cost h ∙ tier_cost_lem u

  project_cost-chosen :
      (task : Task)
      → project_cost task ≡ cost_for {F = F} default_cost_model (chosen_tier task false)
  unfolding project_cost chosen_tier cost_for tier_cost
  project_cost-chosen task =
      asked task.escalate (classify task).tier (tier_for (score_of task)) (classify_by_score task).1

  -- The projection is the cost of what `route` decides when the account is not degraded.
  pub project_cost-route :
      (env : Environ) (task : Task) (log : List (RouteEntry F)) (d : RoutingDecision F)
      → (route env default_cost_model task false log).0 ≡ ok d
      → d.estimated_cost ≡ project_cost task
  project_cost-route env task log d h =
      route_cost env default_cost_model task false log d h ∙ sym (project_cost-chosen task)

  module _ (laws : IsFloat F) where
    capped_cost :
        (task : Task) (degraded : Bool)
        → cost_for {F = F} default_cost_model (chosen_tier task degraded)
          ≼ cost_for default_cost_model (chosen_tier task false)
    unfolding chosen_tier cost_for
    capped_cost task degraded = ground (
      arith,
      laws.le_refl (f.dec 1),
      laws.le_refl (f.dec 10),
      laws.le_refl (f.dec 100),
      laws.le_dec 10 100 (omega arith),
    )

    -- Whether degraded or not, what `route` decides costs no more than the projection.
    pub route-project_cost :
        (env : Environ) (task : Task) (degraded : Bool) (log : List (RouteEntry F))
        (d : RoutingDecision F)
        → (route env default_cost_model task degraded log).0 ≡ ok d
        → d.estimated_cost ≼ project_cost task
    route-project_cost env task degraded log d h =
        rw (route_cost env default_cost_model task degraded log d h, project_cost-chosen task)
          (capped_cost task degraded)
