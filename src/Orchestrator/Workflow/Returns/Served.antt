-- ===== src/Orchestrator/Workflow/Returns/Served.antt =====
-- The activities of orchestrator/workflow.py on a state in which a provider is registered and
-- answers: each has a result, and the provider goes on answering, whatever others do.
use mathlib.Core.Path.{subst}
use routing.Prelude.{
  ◌≡◌, refl, sym, String, ◌==◌, eq_iff, Bool, Option, none, some, arith, Bool-cases, inl, inr,
}
use routing.Prelude.Float.{Float}
use routing.Prelude.Dict.{lookup, lookup-insert}
use routing.Prelude.Result.{Result, ok, err, ok_injective}
use routing.Matrix.Model.{PyError, Task, RoutingDecision, default_cost_model}
use routing.Matrix.Route.{route}
use routing.Matrix.Providers.{
  ProviderAdapter, ProviderFactory, ProviderRegistry, Dispatched, create, keep_or_create, get,
  dispatch_by, parse_provider, dispatch,
}
use routing.Orchestrator.Workflow.World.{Attempt, World, Runtime}
use routing.Orchestrator.Workflow.Activities.{
  is_dispatch, log_info, check_rate_limit, reserve_usage, circuit_breaker_effective, routed,
  route_task, settle_usage, circuit_breaker_record, hand_off, dispatch_task, mark_status, log_event,
}
use routing.Orchestrator.Workflow.Others.{
  Action, checks, reserves, consults, routes, settles, records, dispatches, marks, logs, registers,
  creates, counts, Actions, nothing, then_one,
}

-- The adapter has an answer for every pointer.
pub record Answers (a : ProviderAdapter) : Type 0 where
  pub at : (p : String) → (d : Dispatched) × (a.dispatch p ≡ ok d)

-- There is a factory of that name, which makes an adapter that has an answer for every pointer; and if
-- an adapter of that name was made already, it has one too.
pub record Serves (name : String) (r : ProviderRegistry) : Type 0 where
  pub made : ProviderAdapter
  pub found : lookup name r.factories ≡ some (ok made)
  pub answers : Answers made
  pub cached : (a : ProviderAdapter) → lookup name r.instances ≡ some a → Answers a

create-Serves :
    (name other : String) (r : ProviderRegistry) (x : Option ProviderFactory)
    → lookup other r.factories ≡ x
    → Serves name r
    → Serves name (create other r x).1
unfolding create
create-Serves name other r none e s = s
create-Serves name other r (some (err q)) e s = s
create-Serves name other r (some (ok a)) e s = record {
  made = s.made;
  found = s.found;
  answers = s.answers;
  cached = λ b h. elim (Bool-cases (other == name)) [
    | inl same ↦
        let own : ok s.made ≡ ok b =
          ground (arith, s.found, e, eq_iff other name, lookup-insert other name a r.instances) in
        subst Answers (ok_injective {E = PyError} (ok s.made) s.made b refl own) s.answers
    | inr another ↦ s.cached b (ground (arith, lookup-insert other name a r.instances))
  ];
}

get-Serves :
    (name other : String) (r : ProviderRegistry) (x : Option ProviderAdapter)
    → Serves name r
    → Serves name (keep_or_create other r x).1
get-Serves name other r none s = create-Serves name other r (lookup other r.factories) refl s
get-Serves name other r (some a) s = s

-- Whatever is asked of the registry, it serves the name as before.
dispatch-Serves :
    (name other p : String) (r : ProviderRegistry)
    → Serves name r
    → Serves name (dispatch other p r).1
unfolding dispatch get
dispatch-Serves name other p r s = get-Serves name other r (lookup other r.instances) s

get-found :
    (name p : String) (r : ProviderRegistry) (x : Option ProviderAdapter)
    → lookup name r.instances ≡ x
    → Serves name r
    → (d : Dispatched) × (dispatch_by p (keep_or_create name r x).0 ≡ ok d)
unfolding create
get-found name p r none e s =
    subst (λ y. (d : Dispatched) × (dispatch_by p (create name r y).0 ≡ ok d)) (sym s.found)
      (s.answers.at p)
get-found name p r (some a) e s = (s.cached a e).at p

pub dispatch-found :
    (name p : String) (r : ProviderRegistry)
    → Serves name r
    → (d : Dispatched) × ((dispatch name p r).0 ≡ ok d)
unfolding dispatch get
dispatch-found name p r s = get-found name p r (lookup name r.instances) refl s

module _ {F S : Type 0} where
  -- The provider of that name is registered and answers.
  abbrev pub IsServed : String → World F S → Type 0
  IsServed name w = Serves name w.registry

  pub IsServed-eq :
      (name : String) (w w' : World F S)
      → w'.registry ≡ w.registry
      → IsServed name w
      → IsServed name w'
  IsServed-eq name w w' e s = subst (Serves name) (sym e) s

module _ {F S : Type 0} ⦃f : Float F⦄ (rt : Runtime F S) where
  pub check_rate_limit-registry :
      (who : String) (a : Attempt F) (w : World F S)
      → (check_rate_limit rt who a w).1.registry ≡ w.registry
  unfolding check_rate_limit
  check_rate_limit-registry who a w = ground arith

  pub effective-registry :
      (c : String) (b : Bool) (a : Attempt F) (w : World F S)
      → (circuit_breaker_effective rt c b a w).1.registry ≡ w.registry
  unfolding circuit_breaker_effective log_info
  effective-registry c b a w = ground arith

  pub record-registry :
      (x : F) (a : Attempt F) (w : World F S)
      → (circuit_breaker_record rt x a w).1.registry ≡ w.registry
  unfolding circuit_breaker_record
  record-registry x a w = ground arith

  routed-registry :
      (c : String) (r : Result PyError (RoutingDecision F)) (w : World F S)
      → (routed rt c r w).1.registry ≡ w.registry
  unfolding log_info
  routed-registry c (ok d) w = refl
  routed-registry c (err e) w = refl

  pub route_task-registry :
      (c : String) (t : Task) (b : Bool) (a : Attempt F) (w : World F S)
      → (route_task rt c t b a w).1.registry ≡ w.registry
  unfolding route_task
  route_task-registry c t b a w =
      let (r, log) = route rt.env default_cost_model t b w.route_log in
      routed-registry c r (record w { route_log = log })

  hand_off-registry :
      (c other who : String) (d : RoutingDecision F) (t : Task) (p : String)
      (r : Result PyError Dispatched) (w : World F S)
      → (hand_off rt c other who d t p r w).1.registry ≡ w.registry
  unfolding log_info
  hand_off-registry c other who d t p (ok x) w = refl
  hand_off-registry c other who d t p (err e) w = refl

  pub dispatch_task-IsServed :
      (asked c other who : String) (name : Option String) (d : RoutingDecision F) (t : Task)
      (sim : Option String) (a : Attempt F) (w : World F S)
      → IsServed asked w
      → IsServed asked (dispatch_task rt c other who name d t sim a w).1
  unfolding dispatch_task
  dispatch_task-IsServed asked c other who name d t sim a w s =
      let p = parse_provider rt.env name in
      let (x, registry) = dispatch p d.model_pointer w.registry in
      elim (Bool-cases (is_dispatch sim)) [
        | inl fails ↦ rw fails s
        | inr goes ↦ rw goes (
            subst (Serves asked)
              (sym (hand_off-registry c other who d t p x (record w { registry = registry })))
              (dispatch-Serves asked p d.model_pointer w.registry s))
      ]

  module _ (asked id : String) where
    Action-IsServed : {w w' : World F S} → Action rt id w w' → IsServed asked w → IsServed asked w'
    unfolding reserve_usage settle_usage mark_status log_event log_info
    Action-IsServed (checks who a w) s =
        IsServed-eq asked w (check_rate_limit rt who a w).1 (check_rate_limit-registry who a w) s
    Action-IsServed (reserves c who x a w) s = s
    Action-IsServed (consults c b a w) s =
        IsServed-eq asked w (circuit_breaker_effective rt c b a w).1 (effective-registry c b a w) s
    Action-IsServed (routes c t b a w) s =
        IsServed-eq asked w (route_task rt c t b a w).1 (route_task-registry c t b a w) s
    Action-IsServed (settles c who x y a w) s = s
    Action-IsServed (records x a w) s =
        IsServed-eq asked w (circuit_breaker_record rt x a w).1 (record-registry x a w) s
    Action-IsServed (dispatches c other who name d t sim a w) s =
        dispatch_task-IsServed asked c other who name d t sim a w s
    Action-IsServed (marks c other st e t p x a w ne) s = s
    Action-IsServed (logs c event payload a w) s = s
    Action-IsServed (registers key other w) s = s
    Action-IsServed (creates other b key c now w ne) s = s
    Action-IsServed (counts n w) s = s

    -- Whatever others do, the provider is served.
    pub Actions-IsServed :
        {w w' : World F S} → Actions rt id w w' → IsServed asked w → IsServed asked w'
    Actions-IsServed nothing s = s
    Actions-IsServed (then_one before last) s = Action-IsServed last (Actions-IsServed before s)
