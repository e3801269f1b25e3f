-- ===== src/Orchestrator/Stubs.antt =====
-- orchestrator/stubs.py: the subsystems of later phases. Each answers with a marked placeholder.
use routing.Prelude.{String}
use routing.Matrix.Model.{Task}

pub record StubResult : Type 0 where
  pub stub : String
  pub phase : String
  pub status : String
  pub note : String

abbrev pub stub_phase : String
stub_phase = "later-phase-stub"

unfoldable pub stub_result : String → StubResult
stub_result name = record {
  stub = name;
  phase = stub_phase;
  status = "not-implemented";
  note = "Placeholder — real subsystems land in later phases.";
}

-- `ExecutionEngine.execute`
unfoldable pub execute : String → Task → StubResult
unfolding stub_result
execute model_pointer task = stub_result "ExecutionEngine"

-- `DeploymentFactory.deploy`, of a plan that is a tier and a pointer
unfoldable pub deploy : String → String × String → StubResult
unfolding stub_result
deploy task_id artifact = stub_result "DeploymentFactory"

module _ {F : Type 0} where
  -- `RoyaltyLedger.record`
  unfoldable pub record_royalty : String → String → F → StubResult
  unfolding stub_result
  record_royalty account_id task_id royalty = stub_result "RoyaltyLedger"

  -- `PaymentRouter.route`
  unfoldable pub route_payment : String → F → StubResult
  unfolding stub_result
  route_payment account_id amount = stub_result "PaymentRouter"
