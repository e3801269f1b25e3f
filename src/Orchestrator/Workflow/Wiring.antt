-- ===== src/Orchestrator/Workflow/Wiring.antt =====
-- `create_worker` of orchestrator/workflow.py: what a worker's activities share is bound anew.
use routing.Prelude.{◌≡◌, Option, none}
use routing.Prelude.Float.{Float}
use routing.Orchestrator.Breaker.{CircuitBreaker}
use routing.Orchestrator.RateLimit.{TokenBucketLimiter}
use routing.Orchestrator.Workflow.World.{World, Runtime}
use routing.Orchestrator.Workflow.Run.{RunArgs, run}
use routing.Orchestrator.Workflow.Blind.{set_limiter, AreHeedless}
use routing.Orchestrator.Workflow.Blind.Limiter.{run_unlimited}

module _ {F S : Type 0} where
  -- The registry and the loggers are the process's own.
  unfoldable pub create_worker :
      S → Option (CircuitBreaker F) → Option (TokenBucketLimiter F) → World F S → World F S
  create_worker store circuit_breaker rate_limiter w = record w {
    store = store;
    circuit_breaker = circuit_breaker;
    rate_limiter = rate_limiter;
  }

module _ {F S : Type 0} ⦃f : Float F⦄ (rt : Runtime F S) (heedless : AreHeedless rt)
    (args : RunArgs) where
  -- A worker that is made with a limiter runs a task as one that is made without.
  pub create_worker-run :
      (store : S) (b : Option (CircuitBreaker F)) (l : Option (TokenBucketLimiter F))
      (w : World F S)
      → let (r, t) = run rt args (create_worker store b l w) in
        let (r', t') = run rt args (create_worker store b none w) in
        (r ≡ r') × (t ≡ set_limiter t.rate_limiter t')
  unfolding create_worker
  create_worker-run store b l w = run_unlimited rt heedless args (create_worker store b none w) l
