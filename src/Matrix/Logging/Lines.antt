-- ===== src/Matrix/Logging/Lines.antt =====
-- Which fields of a record of routing_matrix/logging.py reach a line of the log.
use routing.Prelude.{
  ◌≡◌, refl, ap, String, eq_iff, Bool, Option, none, some, List, [], ◌∷◌, ◌++◌, arith,
}
use routing.Prelude.Dict.{Dict, lookup, insert, lookup-insert}
use routing.Prelude.Result.{Result, ok, err}
use routing.Matrix.Model.{Tier, Task, Rationale, RoutingDecision, CostModel, PyError, tier_name}
use routing.Matrix.Tiers.{Environ, resolve_model_pointer}
use routing.Matrix.Route
use routing.Matrix.Route.{RouteEntry, propose, cap_tier, decide, route}
use routing.Matrix.Logging.{
  Json, text, flag, num, of_dict, update, format, info, log_decision, route_payload,
}

module _ {F : Type 0} where
  -- The keys of a dict that Python built: no key stands twice.
  abbrev pub IsDict : Dict (Json F) → Type 0
  IsDict [] = Unit
  IsDict ((k, v) ∷ d) = (lookup k d ≡ none) × IsDict d

  -- The field, or else what the line had.
  abbrev pub or_else : Option (Json F) → Option (Json F) → Option (Json F)
  or_else none old = old
  or_else (some v) old = some v

  pub lookup-update :
      (j : String) (d e : Dict (Json F))
      → IsDict e
      → lookup j (update d (of_dict e)) ≡ or_else (lookup j e) (lookup j d)
  unfolding update of_dict lookup
  lookup-update j d [] h = refl
  lookup-update j d ((k, v) ∷ e) h =
      ground (arith, eq_iff k j, lookup-update j (insert k v d) e h.1, lookup-insert k j v d, h.0)

  -- The line of a payload of `route` has every field of the decision.
  abbrev pub line_of : (Rationale → String) → Task → RoutingDecision F → Dict (Json F)
  line_of say task d =
      format (log_decision (route_payload say (record { task = task; decision = d })))

  logged :
      (task : Task) (log : List (RouteEntry F)) (m : CostModel F) (degraded : Bool)
      (choice : Tier × Rationale) (r : Result PyError String) (d : RoutingDecision F)
      → (Route.log_decision task log m degraded choice r).0 ≡ ok d
      → (Route.log_decision task log m degraded choice r).1
        ≡ log ++ (record { task = task; decision = d } ∷ [])
  unfolding Route.log_decision
  logged task log m degraded choice (ok p) d e =
      ap
        (λ (x : Result PyError (RoutingDecision F)).
          log ++ (record { task = task; decision = got x } ∷ []))
        e
    where
      got : Result PyError (RoutingDecision F) → RoutingDecision F
      got (ok x) = x
      got (err e) = d
  logged task log m degraded choice (err x) d e = absurd (cc)

  -- A call of `route` that returns a decision adds one record to the log, and the line that is
  -- written for it names the tier, the pointer, the rationale, the degraded flag and the cost of that
  -- decision, under the event `routing_decision` of the logger `routing_matrix`.
  pub route-line :
      (say : Rationale → String) (env : Environ) (m : CostModel F) (task : Task) (degraded : Bool)
      (log : List (RouteEntry F)) (d : RoutingDecision F)
      → (route env m task degraded log).0 ≡ ok d
      → ((route env m task degraded log).1 ≡ log ++ (record { task = task; decision = d } ∷ []))
        × (lookup "logger" (line_of say task d) ≡ some (text "routing_matrix"))
        × (lookup "event" (line_of say task d) ≡ some (text "routing_decision"))
        × (lookup "tier" (line_of say task d) ≡ some (text (tier_name d.tier)))
        × (lookup "model_pointer" (line_of say task d) ≡ some (text d.model_pointer))
        × (lookup "rationale" (line_of say task d) ≡ some (text (say d.rationale)))
        × (lookup "degraded" (line_of say task d) ≡ some (flag d.degraded))
        × (lookup "estimated_cost" (line_of say task d) ≡ some (num d.estimated_cost))
  unfolding route format log_decision route_payload info of_dict update insert lookup
  route-line say env m task degraded log d e =
      let choice = cap_tier degraded (propose task) in
      (
        logged task log m degraded choice (resolve_model_pointer env choice.0) d e,
        refl,
        refl,
        refl,
        refl,
        refl,
        refl,
        refl,
      )
