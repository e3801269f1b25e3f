-- ===== src/Matrix/Route/Table.antt =====
-- `route` of routing_matrix/core.py against a decision table.
use routing.Prelude.{
  ℕ, ◌≡◌, refl, ◌∙◌, sym, ap, ◌≢◌, ◌⊎◌, inl, inr, String, Bool, true, false, List, [], ◌∷◌, ◌++◌,
  arith, if◌then◌else◌,
}
use routing.Prelude.Result.{Result, ok, err}
use routing.Matrix.Model.{
  Tier, standard, advanced, frontier, Task, RoutingDecision, CostModel, cost_for, PyError,
}
use routing.Matrix.Classifier.Score.{score_of, tier_for, classify_by_score}
use routing.Matrix.Tiers.{Environ, resolve_model_pointer}
use routing.Matrix.Route.{RouteEntry, propose, cap_tier, decide, log_decision, route, is_frontier}

-- The tier by the flags and the score alone.
unfoldable pub chosen_tier : Task → Bool → Tier
chosen_tier task degraded =
    if task.escalate then if degraded then advanced else frontier else tier_for (score_of task)

tier_for-is_frontier : (n : ℕ) → is_frontier (tier_for n) ≡ false
tier_for-is_frontier n = ground arith

pub cap_tier-chosen :
    (task : Task) (degraded : Bool)
    → (cap_tier degraded (propose task)).0 ≡ chosen_tier task degraded
unfolding cap_tier propose chosen_tier
cap_tier-chosen task degraded =
    ground (arith, (classify_by_score task).1, tier_for-is_frontier (score_of task))

-- What a successful call returns.
pub record IsRouted {F : Type 0} (cost_model : CostModel F) (task : Task) (degraded : Bool)
    (pointer : String) (d : RoutingDecision F) : Type 0 where
  pub tier : d.tier ≡ chosen_tier task degraded
  pub pointer_eq : d.model_pointer ≡ pointer
  pub degraded_eq : d.degraded ≡ degraded
  pub cost_eq : d.estimated_cost ≡ cost_for cost_model (chosen_tier task degraded)

module _ {F : Type 0} (env : Environ) (m : CostModel F) (task : Task) (degraded : Bool)
    (log : List (RouteEntry F)) where
  -- If the pointer of the tier that the decision table names resolves, `route` returns a decision
  -- with that tier, that pointer, the caller's degraded flag and the tier's cost, and logs one
  -- payload, the task with that decision.
  pub route_resolved :
      (pointer : String)
      → resolve_model_pointer env (chosen_tier task degraded) ≡ ok pointer
      → (d : RoutingDecision F) × (route env m task degraded log
          ≡ (ok d, log ++ (record { task = task; decision = d } ∷ [])))
        × IsRouted m task degraded pointer d
  unfolding route decide
  route_resolved pointer h =
      let choice = cap_tier degraded (propose task) in
      let same = cap_tier-chosen task degraded in
      (
        decide m degraded choice pointer,
        ap (log_decision task log m degraded choice) (ap (resolve_model_pointer env) same ∙ h),
        record {
          tier = same;
          pointer_eq = refl;
          degraded_eq = refl;
          cost_eq = ap (cost_for m) same;
        },
      )

  -- If that pointer does not resolve, `route` raises the same error and logs nothing.
  pub route_unresolved :
      (e : PyError)
      → resolve_model_pointer env (chosen_tier task degraded) ≡ err e
      → route env m task degraded log ≡ (err e, log)
  unfolding route
  route_unresolved e h =
      ap (log_decision task log m degraded (cap_tier degraded (propose task)))
        (ap (resolve_model_pointer env) (cap_tier-chosen task degraded) ∙ h)

chosen_tier-degraded : (task : Task) → chosen_tier task true ≢ frontier
unfolding chosen_tier
chosen_tier-degraded task = ground arith

resolve_cases :
    (r : Result PyError String) → ((p : String) × (r ≡ ok p)) ⊎ ((e : PyError) × (r ≡ err e))
resolve_cases (ok p) = inl (p, refl)
resolve_cases (err e) = inr (e, refl)

-- What a returned decision costs.
pub route_cost :
    {F : Type 0} (env : Environ) (m : CostModel F) (task : Task) (degraded : Bool)
    (log : List (RouteEntry F)) (d : RoutingDecision F)
    → (route env m task degraded log).0 ≡ ok d
    → d.estimated_cost ≡ cost_for m (chosen_tier task degraded)
route_cost env m task degraded log d h =
    elim (resolve_cases (resolve_model_pointer env (chosen_tier task degraded))) [
      | inl (p, found) ↦
          let (d', routed, r) = route_resolved env m task degraded log p found in
          let same : d' ≡ d = cc (h, ap (λ x. x.0) routed) in
          ap RoutingDecision.estimated_cost (sym same) ∙ r.cost_eq
      | inr (e, missing) ↦ cc (route_unresolved env m task degraded log e missing)
    ]

cost_cases :
    {F : Type 0} (m : CostModel F) (d : RoutingDecision F) (t : Tier)
    → t ≢ frontier
    → d.estimated_cost ≡ cost_for m t
    → (d.estimated_cost ≡ m.standard) ⊎ (d.estimated_cost ≡ m.advanced)
unfolding cost_for
cost_cases m d standard h e = inl e
cost_cases m d advanced h e = inr e
cost_cases m d frontier h e = absurd (h refl)

-- With the degraded flag set, no decision that `route` returns names the frontier tier, whatever
-- the task asks for, and its cost is the cost of a tier that is not frontier.
pub route-degraded :
    {F : Type 0} (env : Environ) (m : CostModel F) (task : Task) (log : List (RouteEntry F))
    (d : RoutingDecision F)
    → (route env m task true log).0 ≡ ok d
    → (d.tier ≢ frontier) × ((d.estimated_cost ≡ m.standard) ⊎ (d.estimated_cost ≡ m.advanced))
route-degraded {F} env m task log d h =
    elim (resolve_cases (resolve_model_pointer env (chosen_tier task true))) [
      | inl (p, found) ↦
          let (d', routed, r) = route_resolved env m task true log p found in
          let same : d' ≡ d = cc (h, ap (λ x. x.0) routed) in
          let t = ap (λ (x : RoutingDecision F). x.tier) (sym same) ∙ r.tier in
          (
            λ e. chosen_tier-degraded task (sym t ∙ e),
            cost_cases m d (chosen_tier task true) (chosen_tier-degraded task)
                (ap (λ (x : RoutingDecision F). x.estimated_cost) (sym same) ∙ r.cost_eq),
          )
      | inr (e, missing) ↦ cc (route_unresolved env m task true log e missing)
    ]
