-- ===== src/Tests/Routes.antt =====
-- The routing matrix at concrete tasks, environments and registries.
use routing.Prelude.{ℕ, ◌≡◌, ◌≢◌, refl, ◌∙◌, ◌⊎◌, true, false, none, some, [], ◌∷◌}
use routing.Prelude.Float.{ticks, ticks-IsFloat, ◌≼◌}
use routing.Prelude.Result.{ok}
use routing.Prelude.Text.{strip, contains, codes, lower_code}
use routing.Prelude.Dict.{lookup, insert}
use routing.Matrix.Logging.{text, flag, num}
use routing.Matrix.Logging.Lines.{line_of, route-line}
use routing.Matrix.Model.{
  tier_name, Tier, advanced, frontier, Task, Rationale, RoutingDecision, cost_for,
  default_cost_model,
}
use routing.Matrix.Classifier.{in_set, classify}
use routing.Matrix.Classifier.Score.{score_of, tier_for, classify_by_score}
use routing.Matrix.Tiers.{Environ, resolve_model_pointer}
use routing.Matrix.Route.{propose, cap_tier, decide, log_decision, route}
use routing.Matrix.Route.Table.{chosen_tier, IsRouted, route_resolved, route-degraded}
use routing.Matrix.Providers.{ProviderAdapter, default_registry, echo_provider, register, get}
use routing.Orchestrator.Costing.{project_cost}
use routing.Orchestrator.Costing.Bound.{route-project_cost}

abbrev pub env : Environ
env name = some " gpt-x "

abbrev pub hard : Task
hard = record {
  prompt = "Refactor the architecture of the module";
  task_type = some "code";
  escalate = false;
  failure_context = none;
}

abbrev pub asked : Task
asked = record {
  prompt = "hello";
  task_type = none;
  escalate = true;
  failure_context = some "two failures";
}

hard_tier : (classify hard).tier ≡ advanced
unfolding score_of contains codes lower_code in_set
hard_tier = (classify_by_score hard).1 ∙ refl

classify_by_score_example :
    ((classify hard).score ≡ score_of hard) × ((classify hard).tier ≡ tier_for (score_of hard))
classify_by_score_example = classify_by_score hard

pub pointer : (t : Tier) → resolve_model_pointer env t ≡ ok "gpt-x"
unfolding resolve_model_pointer strip
pointer t = refl

route_resolved_example :
    (d : RoutingDecision ℕ) × (route env default_cost_model asked true []
      ≡ (ok d, record { task = asked; decision = d } ∷ []))
    × IsRouted default_cost_model asked true "gpt-x" d
route_resolved_example =
    route_resolved env default_cost_model asked true [] "gpt-x" (pointer (chosen_tier asked true))

-- What the router makes of the asked task for a degraded account.
abbrev pub held_back : RoutingDecision ℕ
held_back = record {
  tier = advanced;
  model_pointer = "gpt-x";
  rationale = Rationale.capped (Rationale.escalated (some "two failures"));
  degraded = true;
  estimated_cost = 10;
}

pub held_back_routed : (route env default_cost_model asked true []).0 ≡ ok held_back
unfolding route resolve_model_pointer strip cost_for propose cap_tier log_decision decide
held_back_routed = refl

route-degraded_example :
    (held_back.tier ≢ frontier) × ((held_back.estimated_cost ≡ 1) ⊎ (held_back.estimated_cost ≡ 10))
route-degraded_example = route-degraded env default_cost_model asked [] held_back held_back_routed

route-project_cost_example : held_back.estimated_cost ≼ project_cost asked
route-project_cost_example =
    route-project_cost ticks-IsFloat env asked true [] held_back held_back_routed

other_adapter : ProviderAdapter
other_adapter = record {
  name = "echo";
  dispatch = λ p. ok (record { provider = "other"; model_pointer = p; status = "provisioned" });
}

got : get "echo" default_registry ≡ (ok echo_provider, (get "echo" default_registry).1)
unfolding get register lookup insert
got = refl

route-line_example :
    ((route env default_cost_model asked true []).1
      ≡ record { task = asked; decision = held_back } ∷ [])
    × (lookup "logger" (line_of (λ r. "why") asked held_back) ≡ some (text "routing_matrix"))
    × (lookup "event" (line_of (λ r. "why") asked held_back) ≡ some (text "routing_decision"))
    × (lookup "tier" (line_of (λ r. "why") asked held_back) ≡ some (text "advanced"))
    × (lookup "model_pointer" (line_of (λ r. "why") asked held_back) ≡ some (text "gpt-x"))
    × (lookup "rationale" (line_of (λ r. "why") asked held_back) ≡ some (text "why"))
    × (lookup "degraded" (line_of (λ r. "why") asked held_back) ≡ some (flag true))
    × (lookup "estimated_cost" (line_of (λ r. "why") asked held_back) ≡ some (num 10))
unfolding tier_name
route-line_example =
    route-line (λ r. "why") env default_cost_model asked true [] held_back held_back_routed
