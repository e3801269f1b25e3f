-- ===== src/Orchestrator/Workflow/World.antt =====
-- What the activities of orchestrator/workflow.py share (`_DEPS`), and how Temporal runs one of
-- them: at most three attempts, each of which may run, stall, or lose its result. The server is not
-- part of the program, so what becomes of each attempt is given; so is what everything else that
-- shares the state, other workflows and the facade, does before it.
use routing.Prelude.{ℕ, zero, suc, ◌+◌, Bool, true, false, Option, List}
use routing.Prelude.Result.{Result, ok, err}
use routing.Matrix.Model.{PyError}
use routing.Matrix.Tiers.{Environ}
use routing.Matrix.Route.{RouteEntry}
use routing.Matrix.Providers.{ProviderRegistry}
use routing.Orchestrator.Breaker.{CircuitBreaker}
use routing.Orchestrator.RateLimit.{TokenBucketLimiter}
use routing.Orchestrator.Logging.{LogRecord}
use routing.Orchestrator.Store.Protocol.{Store}
use routing.Orchestrator.Workflow.Exec.{Exc, Exec}

-- `runs`: the result, or the exception, arrives. `stalls`: the attempt has no effect and times out.
-- `breaks`: an exception arrives before the attempt has an effect, such as one of the database, whose
-- transaction was rolled back.
-- `loses_result`: the attempt has its effect, and its result does not arrive in time.
-- `never_starts`: no worker takes the task in time; this is not tried again.
pub data Fate : Type 0 where
  runs stalls loses_result never_starts : Fate
  breaks : PyError → Fate

-- `now` is `time.time()` and `monotonic` is `time.monotonic()` during the attempt.
pub record Attempt (F : Type 0) : Type 0 where
  pub fate : Fate
  pub now : F
  pub monotonic : F

pub record World (F S : Type 0) : Type 0 where
  pub store : S
  pub circuit_breaker : Option (CircuitBreaker F)
  pub rate_limiter : Option (TokenBucketLimiter F)
  pub registry : ProviderRegistry
  pub route_log : List (RouteEntry F)
  pub log : List (LogRecord F)
  -- the attempts that were made so far
  pub tick : ℕ

-- An activity has no `await` in its body, so it is not interrupted; what the others do falls between
-- two attempts. `failure` is the exception that Temporal raises in a workflow for one of an activity, and
-- `timed_out` the one for an attempt that timed out.
pub record Runtime (F S : Type 0) : Type 0 where
  pub env : Environ
  pub ops : Store F S
  pub attempts : ℕ → Attempt F
  pub others : ℕ → World F S → World F S
  pub failure : PyError → Exc
  pub timed_out : Exc

-- An activity, for one attempt.
abbrev pub Body : Type 0 → Type 0 → Type 0 → Type 0
Body F S A = Attempt F → World F S → Result PyError A × World F S

-- The retries that are left after the first attempt: `maximum_attempts=3`.
abbrev pub retries : ℕ
retries = 2

abbrev pub may_retry : Fate → Bool
may_retry never_starts = false
may_retry _ = true

module _ {F S : Type 0} (rt : Runtime F S) where
  -- The state at the start of an attempt.
  abbrev pub counted : World F S → World F S
  counted w = record (rt.others w.tick w) { tick = w.tick + 1 }

module _ {F S A : Type 0} (rt : Runtime F S) where
  abbrev pub report : Result PyError A → Result Exc A
  report (ok a) = ok a
  report (err e) = err (rt.failure e)

  -- What a workflow sees of an attempt on the state `w`.
  abbrev pub outcome : Fate → Result PyError A × World F S → World F S → Result Exc A × World F S
  outcome runs (r, w') w = (report r, w')
  outcome loses_result (r, w') w = (err rt.timed_out, w')
  outcome stalls q w = (err rt.timed_out, w)
  outcome (breaks e) q w = (err (rt.failure e), w)
  outcome never_starts q w = (err rt.timed_out, w)

  -- One attempt.
  unfoldable pub try_once : Attempt F → Body F S A → Exec (World F S) A
  try_once a body w = outcome a.fate (body a w) w

  -- What follows an attempt: the next one, if it failed and another one is left.
  abbrev pub after : Fate → Exec (World F S) A → Result Exc A × World F S → Result Exc A × World F S
  after fate again (ok a, w) = (ok a, w)
  after fate again (err e, w) = elim (may_retry fate) [ true ↦ again w | false ↦ (err e, w) ]

  unfoldable pub try_again : ℕ → Body F S A → Exec (World F S) A
  unfolding try_once
  try_again zero body w = try_once (rt.attempts w.tick) body (counted rt w)
  try_again (suc n) body w =
      let a = rt.attempts w.tick in
      after a.fate (λ w'. try_again n body w') (try_once a body (counted rt w))

  -- `TaskWorkflow._activity`
  unfoldable pub activity : Body F S A → Exec (World F S) A
  unfolding try_again
  activity body w = try_again retries body w
