-- ===== src/Orchestrator/Costing.antt =====
-- orchestrator/costing.py: the projection of a task's cost before it is routed.
pub mod Bound
use routing.Prelude.{if◌then◌else◌}
use routing.Prelude.Float.{Float}
use routing.Matrix.Model.{Tier, standard, advanced, frontier, Task, default_cost_model, CostModel}
use routing.Matrix.Classifier.{classify}

module _ {F : Type 0} ⦃f : Float F⦄ where
  abbrev pub frontier_cost : F
  frontier_cost = let m : CostModel F = default_cost_model in m.frontier

  abbrev pub advanced_cost : F
  advanced_cost = let m : CostModel F = default_cost_model in m.advanced

  abbrev pub standard_cost : F
  standard_cost = let m : CostModel F = default_cost_model in m.standard

  unfoldable pub tier_cost : Tier → F
  tier_cost standard = standard_cost
  tier_cost advanced = advanced_cost
  tier_cost frontier = frontier_cost

  -- The task is given by a dict that has all its fields.
  unfoldable pub project_cost : Task → F
  unfolding tier_cost
  project_cost task = if task.escalate then frontier_cost else tier_cost (classify task).tier
