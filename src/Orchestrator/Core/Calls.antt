-- ===== src/Orchestrator/Core/Calls.antt =====
-- What a call of `Orchestrator.orchestrate` (orchestrator/core.py) answers and leaves behind.
use mathlib.Core.Path.{subst}
use routing.Prelude.{
  ◌≡◌, refl, sym, ◌∙◌, ap, ◌⊎◌, inl, inr, String, Bool, Option, List, [], ◌∷◌, ◌++◌,
}
use routing.Prelude.Float.{Float}
use routing.Prelude.Result.{Result, ok, err, ok_injective, err_injective}
use routing.Matrix.Model.{Task, RoutingDecision, PyError, default_cost_model, tier_name}
use routing.Matrix.Tiers.{Environ}
use routing.Matrix.Route.{RouteEntry, route}
use routing.Matrix.Providers.{Dispatched, ProviderRegistry, parse_provider, dispatch}
use routing.Orchestrator.Usage.{UsageLedger, record_usage, snapshot}
use routing.Orchestrator.Core.{
  OrchestrationResult, State, or_default, finish, account_for, orchestrate,
}

module _ {F : Type 0} ⦃f : Float F⦄ (env : Environ) (task : Task) (acct : Option String)
    (degraded : Bool) (name : Option String) (s : State F) where
  abbrev pub routed : Result PyError (RoutingDecision F) × List (RouteEntry F)
  routed = route env default_cost_model task degraded s.route_log

  -- The ledger with the decision charged to the account.
  abbrev pub charged : RoutingDecision F → UsageLedger F
  charged d = record_usage s.ledger (or_default acct) (tier_name d.tier) d.estimated_cost

  abbrev pub answer : RoutingDecision F → Result PyError Dispatched × ProviderRegistry
  answer d = dispatch (parse_provider env name) d.model_pointer s.registry

  -- The routing raised, and nothing was charged; or it decided and the decision was charged, but
  -- the dispatch raised.
  abbrev pub Raised : PyError → State F → Type 0
  Raised e s' =
      ((routed.0 ≡ err e) × (s'.ledger ≡ s.ledger))
      ⊎ ((d : RoutingDecision F) × (routed.0 ≡ ok d)
          × ((answer d).0 ≡ err e)
          × (s'.ledger ≡ charged d))

  -- A plan, and what the call leaves.
  pub record IsPlanned (res : OrchestrationResult F) (s' : State F) : Type 0 where
    pub routed_eq : routed.0 ≡ ok res.decision
    pub answered : (answer res.decision).0 ≡ ok res.dispatched
    pub account_eq : res.account_id ≡ or_default acct
    pub ledger_eq : s'.ledger ≡ charged res.decision
    pub usage_eq : res.usage ≡ snapshot s'.ledger (or_default acct)
    pub logged : s'.decision_log ≡ s.decision_log ++ (res ∷ [])

  abbrev with_log : List (RouteEntry F) → State F
  with_log log = record s { route_log = log }

  abbrev asked : RoutingDecision F → List (RouteEntry F) → ProviderRegistry → State F
  asked d log reg = record s { ledger = charged d; registry = reg; route_log = log }

  abbrev plan : RoutingDecision F → Dispatched → OrchestrationResult F
  plan d x = record {
    task = task;
    account_id = or_default acct;
    decision = d;
    provider = parse_provider env name;
    dispatched = x;
    usage = snapshot (charged d) (or_default acct);
  }

  finish-ok :
      (d : RoutingDecision F) (log : List (RouteEntry F)) (x : Result PyError Dispatched)
      (reg : ProviderRegistry) (res : OrchestrationResult F) (s' : State F)
      → routed.0 ≡ ok d
      → (answer d).0 ≡ x
      → finish task (or_default acct) d (parse_provider env name) x (asked d log reg) ≡ (ok res, s')
      → IsPlanned res s'
  unfolding finish
  finish-ok d log (ok x) reg res s' h k e =
      let same = ok_injective (ok res) (plan d x) res (sym (ap (λ q. q.0) e)) refl in
      let left = ap (λ q. q.1) e in
      subst (λ r. IsPlanned r s') same
        (subst (λ t. IsPlanned (plan d x) t) left
          (record {
            routed_eq = h;
            answered = k;
            account_eq = refl;
            ledger_eq = refl;
            usage_eq = refl;
            logged = refl;
          }))
  finish-ok d log (err x) reg res s' h k e = absurd (cc)

  account_for-ok :
      (r : Result PyError (RoutingDecision F)) (log : List (RouteEntry F))
      (res : OrchestrationResult F) (s' : State F)
      → routed.0 ≡ r
      → account_for env task (or_default acct) name r (with_log log) ≡ (ok res, s')
      → IsPlanned res s'
  unfolding account_for
  account_for-ok (ok d) log res s' h e = finish-ok d log (answer d).0 (answer d).1 res s' h refl e
  account_for-ok (err x) log res s' h e = absurd (cc)

  -- A call that returns a plan has the decision that `route` makes of the task and what the
  -- provider answers for its pointer; the decision is charged to the account, the default one if
  -- none is given, the plan's usage is the account's after that, and one line is logged, the plan.
  pub orchestrate-ok :
      (res : OrchestrationResult F) (s' : State F)
      → orchestrate env task acct degraded name s ≡ (ok res, s')
      → IsPlanned res s'
  unfolding orchestrate
  orchestrate-ok res s' e = account_for-ok routed.0 routed.1 res s' refl e

  finish-err :
      (d : RoutingDecision F) (log : List (RouteEntry F)) (x : Result PyError Dispatched)
      (reg : ProviderRegistry) (x' : PyError) (s' : State F)
      → routed.0 ≡ ok d
      → (answer d).0 ≡ x
      → finish task (or_default acct) d (parse_provider env name) x (asked d log reg) ≡ (err x', s')
      → Raised x' s' × (s'.decision_log ≡ s.decision_log)
  unfolding finish
  finish-err d log (ok y) reg x' s' h k e = absurd (cc)
  finish-err d log (err y) reg x' s' h k e =
      let left : asked d log reg ≡ s' = ap (λ q. q.1) e in
      let same =
        err_injective {A = OrchestrationResult F} (err x') y x' (sym (ap (λ q. q.0) e)) refl in
      (inr (d, h, k ∙ ap err same, ap State.ledger (sym left)), ap State.decision_log (sym left))

  account_for-err :
      (r : Result PyError (RoutingDecision F)) (log : List (RouteEntry F)) (x' : PyError)
      (s' : State F)
      → routed.0 ≡ r
      → account_for env task (or_default acct) name r (with_log log) ≡ (err x', s')
      → Raised x' s' × (s'.decision_log ≡ s.decision_log)
  unfolding account_for
  account_for-err (ok d) log x' s' h e = finish-err d log (answer d).0 (answer d).1 x' s' h refl e
  account_for-err (err y) log x' s' h e =
      let left : with_log log ≡ s' = ap (λ q. q.1) e in
      let same =
        err_injective {A = OrchestrationResult F} (err x') y x' (sym (ap (λ q. q.0) e)) refl in
      (inl (h ∙ ap err same, ap State.ledger (sym left)), ap State.decision_log (sym left))

  -- A call that raises logs no plan. Either `route` raised that exception, and nothing is charged;
  -- or the provider raised it, and the decision is charged to the account all the same.
  pub orchestrate-err :
      (e : PyError) (s' : State F)
      → orchestrate env task acct degraded name s ≡ (err e, s')
      → Raised e s' × (s'.decision_log ≡ s.decision_log)
  unfolding orchestrate
  orchestrate-err x' s' e = account_for-err routed.0 routed.1 x' s' refl e
