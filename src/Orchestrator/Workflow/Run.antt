-- ===== src/Orchestrator/Workflow/Run.antt =====
-- `TaskWorkflow.run` of orchestrator/workflow.py.
use Prim.Native.String.{◌++◌ as append}
use routing.Prelude.{String, Option, none, some}
use routing.Prelude.Float.{Float}
use routing.Prelude.Result.{Result, ok, err}
use routing.Matrix.Model.{RoutingDecision, tier_name}
use routing.Matrix.Classifier.{join}
use routing.Orchestrator.Costing.{project_cost}
use routing.Orchestrator.Store.Tables.{Status, running, completed, failed}
use routing.Orchestrator.Workflow.Exec.{Exc, caused, parts, Exec, pure, raise, ◌>>=◌, ◌>>◌}
use routing.Orchestrator.Workflow.Inputs.{TaskInput, to_task}
use routing.Orchestrator.Workflow.World.{World, Runtime, activity}
use routing.Orchestrator.Workflow.Activities.{
  check_rate_limit, reserve_usage, circuit_breaker_effective, route_task, settle_usage,
  circuit_breaker_record, dispatch_task, mark_status,
}

pub record TaskResult (F : Type 0) : Type 0 where
  pub task_id : String
  pub account_id : String
  pub decision : RoutingDecision F
  pub correlation_id : String
  pub status : Status

-- The arguments of `run`, and the workflow's id.
pub record RunArgs : Type 0 where
  pub wf_id : String
  pub task : TaskInput
  pub account_id : String
  pub idempotency_key : Option String
  pub correlation_id : String
  pub provider_name : Option String
  pub simulate_failure : Option String

module _ {F S : Type 0} ⦃f : Float F⦄ (rt : Runtime F S) (args : RunArgs) where
  open args use {wf_id, task, account_id, correlation_id, provider_name, simulate_failure}

  -- From the dispatch on.
  unfoldable pub finish_steps : RoutingDecision F → Exec (World F S) (TaskResult F)
  finish_steps decision = do
    out ← activity rt (
        dispatch_task rt correlation_id wf_id account_id provider_name decision task
          simulate_failure)
    activity rt (
        mark_status rt correlation_id wf_id completed none (some (tier_name decision.tier))
          (some decision.model_pointer) (some decision.estimated_cost))
    pure (record {
      task_id = wf_id;
      account_id = account_id;
      decision = decision;
      correlation_id = correlation_id;
      status = completed;
    })

  -- The body of the `try`.
  unfoldable pub steps : Exec (World F S) (TaskResult F)
  unfolding finish_steps
  steps = do
    activity rt (mark_status rt correlation_id wf_id running none none none none)
    allowed ← activity rt (check_rate_limit rt account_id)
    reservation ←
        activity rt (reserve_usage rt correlation_id account_id (project_cost (to_task task)))
    degraded ← activity rt (circuit_breaker_effective rt correlation_id reservation.degraded)
    decision ← activity rt (route_task rt correlation_id task degraded)
    balance ← activity rt (
        settle_usage rt correlation_id account_id reservation.projected_cost
          decision.estimated_cost)
    open_frontier ← activity rt (circuit_breaker_record rt decision.estimated_cost)
    finish_steps decision

  -- The text that the dead-letter handler writes.
  abbrev pub reason : Exc → String
  reason exc = join " <- " (parts exc)

  -- The handler of the `try`.
  unfoldable pub dead_letter : Exc → Exec (World F S) (TaskResult F)
  dead_letter exc = do
    activity rt (mark_status rt correlation_id wf_id failed (some (reason exc)) none none none)
    raise (
        caused "ApplicationError" (append "Task " (append wf_id (append " failed: " (reason exc))))
          exc)

  unfoldable pub catch :
      Result Exc (TaskResult F) × World F S → Result Exc (TaskResult F) × World F S
  unfolding dead_letter
  catch (ok r, w) = (ok r, w)
  catch (err exc, w) = dead_letter exc w

  unfoldable pub run : Exec (World F S) (TaskResult F)
  unfolding steps catch
  run w = catch (steps w)
