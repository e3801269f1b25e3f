-- ===== src/Orchestrator/Api.antt =====
-- orchestrator/api.py: the facade that submits tasks and answers polls. The ids that `uuid4` gives,
-- the clocks, and what the Temporal client makes of `start_workflow` are arguments.
pub mod Claims
pub mod Polls
use routing.Prelude.{
  String, ◌==◌, Bool, true, false, Option, none, some, List, [], ◌∷◌, ◌++◌, if◌then◌else◌,
}
use routing.Prelude.Float.{Float}
use routing.Prelude.Result.{Result, ok, err}
use routing.Matrix.Model.{
  Task, PyError, account_required, rate_limit_exceeded, task_not_found, tenant_isolation_violation,
}
use routing.Orchestrator.RateLimit.{TokenBucketLimiter, allow}
use routing.Orchestrator.Store.Tables.{TaskRow}
use routing.Orchestrator.Store.Protocol.{Store}
use routing.Orchestrator.Workflow.Inputs.{task_input}
use routing.Orchestrator.Workflow.Run.{RunArgs}

-- `started` are the workflows that the Temporal server accepted.
pub record ApiState (F S : Type 0) : Type 0 where
  pub store : S
  pub rate_limiter : Option (TokenBucketLimiter F)
  pub started : List RunArgs

-- `client_error` is what `start_workflow` raises, if it does.
pub record Submission (F : Type 0) : Type 0 where
  pub task : Task
  pub account_id : Option String
  pub idempotency_key : Option String
  pub provider_name : Option String
  pub simulate_failure : Option String
  pub new_task_id : String
  pub new_correlation_id : String
  pub now : F
  pub monotonic : F
  pub client_error : Option PyError

-- `_resolve_account`
unfoldable pub resolve_account : Option String → Result PyError String
resolve_account none = err account_required
resolve_account (some a) = if a == "" then err account_required else ok a

module _ {F : Type 0} where
  abbrev pub explain_absence : String → String → Option String → Result PyError (TaskRow F)
  explain_absence task_id account_id none = err (task_not_found task_id account_id)
  explain_absence task_id account_id (some owner) =
      err (tenant_isolation_violation task_id account_id)

module _ {F S : Type 0} where
  -- `self._client.start_workflow(...)`
  unfoldable pub start_workflow :
      Submission F → String → ApiState F S → Result PyError String × ApiState F S
  start_workflow q account_id s = elim q.client_error [
    | some e ↦ (err e, s)
    | none ↦ (
      ok q.new_task_id,
      record s {
        started =
            s.started
            ++ (record {
              wf_id = q.new_task_id;
              task = task_input q.task;
              account_id = account_id;
              idempotency_key = q.idempotency_key;
              correlation_id = q.new_correlation_id;
              provider_name = q.provider_name;
              simulate_failure = q.simulate_failure;
            }
                ∷ []);
      },
    )
  ]

  module _ (ops : Store F S) where
    -- `create_task`, then `start_workflow`.
    unfoldable pub launch :
        Submission F → String → ApiState F S → Result PyError String × ApiState F S
    unfolding start_workflow
    launch q account_id s = start_workflow q account_id (record s {
      store =
          ops.create_task q.new_task_id account_id q.idempotency_key q.new_correlation_id q.now
            s.store;
    })

    abbrev pub claim_or_launch :
        Submission F
        → String
        → (String × Bool) × S
        → ApiState F S
        → Result PyError String × ApiState F S
    claim_or_launch q account_id ((existing, true), store) s =
        launch q account_id (record s { store = store })
    claim_or_launch q account_id ((existing, false), store) s =
        (ok existing, record s { store = store })

    -- The idempotency claim.
    unfoldable pub claim :
        Submission F → String → ApiState F S → Result PyError String × ApiState F S
    unfolding launch
    claim q account_id s = elim q.idempotency_key [
      | none ↦ launch q account_id s
      | some key ↦
          claim_or_launch q account_id (ops.register_idempotency key q.new_task_id s.store) s
    ]

  module _ ⦃f : Float F⦄ where
    -- The limiter's answer, and the limiter after it.
    abbrev pub admit : Submission F → String → ApiState F S → Bool × ApiState F S
    admit q account_id s = elim s.rate_limiter [
      | none ↦ (true, s)
      | some l ↦ (
        (allow l account_id q.monotonic).0,
        record s { rate_limiter = some (allow l account_id q.monotonic).1 },
      )
    ]

    unfoldable pub submit_for :
        Store F S
        → Submission F
        → Result PyError String
        → ApiState F S
        → Result PyError String × ApiState F S
    unfolding claim
    submit_for ops q (err e) s = (err e, s)
    submit_for ops q (ok account_id) s =
        let (allowed, s') = admit q account_id s in
        if allowed then claim ops q account_id s' else (err (rate_limit_exceeded account_id), s')

    unfoldable pub submit :
        Store F S → Submission F → ApiState F S → Result PyError String × ApiState F S
    unfolding submit_for resolve_account
    submit ops q s = submit_for ops q (resolve_account q.account_id) s

  abbrev pub status_for :
      Store F S → String → Result PyError String → S → Result PyError (TaskRow F)
  status_for ops task_id (err e) store = err e
  status_for ops task_id (ok account_id) store = elim (ops.get_task task_id account_id store) [
    | some task ↦ ok task
    | none ↦ explain_absence task_id account_id (ops.task_owner task_id store)
  ]

  unfoldable pub get_status :
      Store F S → String → Option String → ApiState F S → Result PyError (TaskRow F)
  unfolding resolve_account
  get_status ops task_id account_id s = status_for ops task_id (resolve_account account_id) s.store
