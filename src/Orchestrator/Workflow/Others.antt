-- ===== src/Orchestrator/Workflow/Others.antt =====
-- What acts on the shared state beside one workflow of orchestrator/workflow.py: the activities of
-- other workflows, and the store operations of the facade (orchestrator/api.py), in any order. The
-- ids of tasks are made by `uuid4`, and each workflow writes the row of its own task only.
pub mod Kept
pub mod Tripped
pub mod Claims
pub mod Runs
use routing.Prelude.{ℕ, ◌≡◌, ◌≢◌, String, Bool, Option}
use routing.Prelude.Float.{Float}
use routing.Matrix.Model.{Task, RoutingDecision}
use routing.Orchestrator.Logging.{Json}
use routing.Prelude.Dict.{Dict}
use routing.Orchestrator.Store.Tables.{Status}
use routing.Orchestrator.Workflow.World.{Attempt, World, Runtime}
use routing.Orchestrator.Workflow.Activities.{
  check_rate_limit, reserve_usage, circuit_breaker_effective, route_task, settle_usage,
  circuit_breaker_record, dispatch_task, mark_status, log_event,
}

-- One action of anything but the workflow of the task `id`.
pub data Action {F S : Type 0} ⦃f : Float F⦄ (rt : Runtime F S) (id : String)
    : World F S → World F S → Type 0 where
  checks :
      (who : String) (a : Attempt F) (w : World F S)
      → Action rt id w (check_rate_limit rt who a w).1
  reserves :
      (c who : String) (x : F) (a : Attempt F) (w : World F S)
      → Action rt id w (reserve_usage rt c who x a w).1
  consults :
      (c : String) (b : Bool) (a : Attempt F) (w : World F S)
      → Action rt id w (circuit_breaker_effective rt c b a w).1
  routes :
      (c : String) (t : Task) (b : Bool) (a : Attempt F) (w : World F S)
      → Action rt id w (route_task rt c t b a w).1
  settles :
      (c who : String) (x y : F) (a : Attempt F) (w : World F S)
      → Action rt id w (settle_usage rt c who x y a w).1
  records :
      (x : F) (a : Attempt F) (w : World F S) → Action rt id w (circuit_breaker_record rt x a w).1
  dispatches :
      (c other who : String) (name : Option String) (d : RoutingDecision F) (t : Task)
      (sim : Option String) (a : Attempt F) (w : World F S)
      → Action rt id w (dispatch_task rt c other who name d t sim a w).1
  marks :
      (c other : String) (st : Status) (e t p : Option String) (x : Option F) (a : Attempt F)
      (w : World F S)
      → other ≢ id
      → Action rt id w (mark_status rt c other st e t p x a w).1
  logs :
      (c : String) (event : Option String) (payload : Dict (Json F)) (a : Attempt F) (w : World F S)
      → Action rt id w (log_event rt c event payload a w).1
  -- `submit` claims a key, and creates the row of a new task
  registers :
      (key other : String) (w : World F S)
      → Action rt id w (record w { store = (rt.ops.register_idempotency key other w.store).1 })
  creates :
      (other acct : String) (key : Option String) (c : String) (now : F) (w : World F S)
      → other ≢ id
      → Action rt id w (record w { store = rt.ops.create_task other acct key c now w.store })
  -- an attempt of another workflow is counted
  counts : (n : ℕ) (w : World F S) → Action rt id w (record w { tick = n })

-- Any number of them, one after the other.
pub data Actions {F S : Type 0} ⦃f : Float F⦄ (rt : Runtime F S) (id : String) (w : World F S)
    : World F S → Type 0 where
  nothing : Actions rt id w w
  then_one : {v u : World F S} → Actions rt id w v → Action rt id v u → Actions rt id w u

-- What happens between the attempts of a workflow is what others do.
pub record AreOthers {F S : Type 0} ⦃f : Float F⦄ (rt : Runtime F S) (id : String) : Type 0 where
  pub at : (n : ℕ) (w : World F S) → Actions rt id w (rt.others n w)
