-- ===== src/Orchestrator/Core/Shared/Ledgers.antt =====
-- What calls of `orchestrate` (orchestrator/core.py) through any orchestrators of a process charge to
-- each of its ledgers.
use routing.Prelude.{
  ℕ, arith, ◌==ℕ◌, ◌≡◌, refl, ◌∙◌, ap, String, Bool, Option, List, [], ◌∷◌, if◌then◌else◌,
}
use routing.Prelude.Float.{Float}
use routing.Prelude.Result.{Result, ok, err}
use routing.Matrix.Model.{
  Task, Tier, Rationale, RoutingDecision, CostModel, PyError, default_cost_model, tier_name,
}
use routing.Matrix.Tiers.{Environ}
use routing.Matrix.Route.{RouteEntry, route, log_decision, propose, cap_tier}
use routing.Matrix.Providers.{Dispatched, dispatch, parse_provider}
use routing.Orchestrator.Usage.{UsageLedger, record_usage}
use routing.Orchestrator.Core as Method
use routing.Orchestrator.Core.{State, or_default, finish, account_for}
use routing.Orchestrator.Core.Shared.{
  Orchestrator, Process, put, or_shared, fetch, leave, orchestrate,
}

-- The arguments of a call, and the environment at that time.
pub record Call : Type 0 where
  pub env : Environ
  pub task : Task
  pub account_id : Option String
  pub degraded : Bool
  pub orchestrator : Option Orchestrator
  pub provider_name : Option String

module _ {F : Type 0} ⦃f : Float F⦄ where
  abbrev pub orchestrate_all : List Call → Process F → Process F
  orchestrate_all [] p = p
  orchestrate_all (c ∷ cs) p =
      orchestrate_all cs
        (orchestrate c.env c.task c.account_id c.degraded c.orchestrator c.provider_name p).1

  -- A decision is charged to the account, and an exception of `route` is not.
  abbrev pub charged_by :
      Option String → Result PyError (RoutingDecision F) → UsageLedger F → UsageLedger F
  charged_by a (err e) l = l
  charged_by a (ok d) l = record_usage l (or_default a) (tier_name d.tier) d.estimated_cost

  -- What `route` decides of the call's task, whatever it has logged before, is charged.
  abbrev pub charge_of : Call → UsageLedger F → UsageLedger F
  charge_of c = charged_by c.account_id (route c.env default_cost_model c.task c.degraded []).0

  -- The charges, in order, for the calls whose orchestrator has the ledger `n`.
  abbrev pub charges : ℕ → List Call → UsageLedger F → UsageLedger F
  charges n [] l = l
  charges n (c ∷ cs) l =
      charges n cs (if n ==ℕ (or_shared c.orchestrator).usage_ledger then charge_of c l else l)

  log_decision-result :
      (task : Task) (log : List (RouteEntry F)) (m : CostModel F) (degraded : Bool)
      (choice : Tier × Rationale) (r : Result PyError String)
      → (log_decision task log m degraded choice r).0 ≡ (log_decision task [] m degraded choice r).0
  unfolding log_decision
  log_decision-result task log m degraded choice (ok p) = refl
  log_decision-result task log m degraded choice (err e) = refl

  finish-ledger :
      (task : Task) (a : String) (d : RoutingDecision F) (provider : String)
      (x : Result PyError Dispatched) (s : State F)
      → (finish task a d provider x s).1.ledger ≡ s.ledger
  unfolding finish
  finish-ledger task a d provider (ok x) s = refl
  finish-ledger task a d provider (err e) s = refl

  account_for-ledger :
      (env : Environ) (task : Task) (a : Option String) (name : Option String)
      (r : Result PyError (RoutingDecision F)) (s : State F)
      → (account_for env task (or_default a) name r s).1.ledger ≡ charged_by a r s.ledger
  unfolding account_for
  account_for-ledger env task a name (err e) s = refl
  account_for-ledger env task a name (ok d) s =
      finish-ledger task (or_default a) d (parse_provider env name)
        (dispatch (parse_provider env name) d.model_pointer s.registry).0 _

  method-ledger :
      (c : Call) (s : State F)
      → (Method.orchestrate c.env c.task c.account_id c.degraded c.provider_name s).1.ledger
        ≡ charge_of c s.ledger
  unfolding Method.orchestrate route
  method-ledger c s =
      let routed = route c.env default_cost_model c.task c.degraded s.route_log in
      account_for-ledger c.env c.task c.account_id c.provider_name routed.0
        (record s { route_log = routed.1 })
      ∙ ap (λ r. charged_by c.account_id r s.ledger)
          (log_decision-result c.task s.route_log default_cost_model c.degraded
            (cap_tier c.degraded (propose c.task)) _)

  -- The ledger that is written, and the others.
  put-charged :
      (n m : ℕ) (l : UsageLedger F) (ls : ℕ → UsageLedger F) (g : UsageLedger F → UsageLedger F)
      → l ≡ g (ls m)
      → put m l ls n ≡ (if n ==ℕ m then g (ls n) else ls n)
  put-charged n m l ls g h = grind arith

  -- After any calls, through any orchestrators, a ledger of the process has what it had and the
  -- decisions of those calls whose orchestrator has that ledger, in order, each charged to the call's
  -- account, whether or not the provider then answered, and nothing else.
  pub orchestrate_all-ledgers :
      (n : ℕ) (cs : List Call) (p : Process F)
      → (orchestrate_all cs p).ledgers n ≡ charges n cs (p.ledgers n)
  unfolding orchestrate fetch leave
  orchestrate_all-ledgers n [] p = refl
  orchestrate_all-ledgers n (c ∷ cs) p =
      let impl = or_shared c.orchestrator in
      orchestrate_all-ledgers n cs _
      ∙ ap (charges n cs) (
          put-charged n impl.usage_ledger _ p.ledgers (charge_of c)
            (method-ledger c (fetch impl p)))
