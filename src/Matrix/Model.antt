-- ===== src/Matrix/Model.antt =====
-- routing_matrix/model.py: tiers, tasks, decisions and the cost model; and the exceptions of the
-- package.
use routing.Prelude.{ℕ, String, Bool, Option}
use routing.Prelude.Float.{Float, nought}

pub data Tier : Type 0 where
  standard advanced frontier : Tier

pub record Task : Type 0 where
  pub prompt : String
  pub task_type : Option String
  pub escalate : Bool
  pub failure_context : Option String

-- The text of a rationale by its parts: the template is the constructor, what is put into it are
-- the arguments. The `repr` of the context and the name of its type are functions of the context.
pub data Rationale : Type 0 where
  escalated : Option String → Rationale
  classified_standard : String → Rationale
  classified_tier : Tier → ℕ → String → Rationale
  capped : Rationale → Rationale

pub record RoutingDecision (F : Type 0) : Type 0 where
  pub tier : Tier
  pub model_pointer : String
  pub rationale : Rationale
  pub degraded : Bool
  pub estimated_cost : F

pub record CostModel (F : Type 0) : Type 0 where
  pub standard : F
  pub advanced : F
  pub frontier : F

module _ {F : Type 0} where
  unfoldable pub cost_for : CostModel F → Tier → F
  cost_for m Tier.standard = m.standard
  cost_for m Tier.advanced = m.advanced
  cost_for m Tier.frontier = m.frontier

module _ {F : Type 0} ⦃f : Float F⦄ where
  unfoldable pub lowest : CostModel F
  lowest = record { standard = nought; advanced = nought; frontier = nought }

  -- 0.0001, 0.001 and 0.01
  abbrev pub default_cost_model : CostModel F
  default_cost_model = record { standard = f.dec 1; advanced = f.dec 10; frontier = f.dec 100 }

-- The text that stands for a tier.
unfoldable pub tier_name : Tier → String
tier_name standard = "standard"
tier_name advanced = "advanced"
tier_name frontier = "frontier"

-- What the code of both packages raises, with the value that the message names.
pub data PyError : Type 0 where
  tier_config_error : String → Tier → PyError
  key_error : String → PyError
  runtime_error : String → PyError
  value_error : String → PyError
  rate_limit_exceeded : String → PyError
  account_required : PyError
  task_not_found : String → String → PyError
  tenant_isolation_violation : String → String → PyError
  import_error : String → PyError
  assertion_error : PyError
