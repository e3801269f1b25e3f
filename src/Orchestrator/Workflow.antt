-- ===== src/Orchestrator/Workflow.antt =====
-- orchestrator/workflow.py: the durable workflow of one task and its activities.
pub mod Exec
pub mod World
pub mod Inputs
pub mod Activities
pub mod Run
pub mod Attempts
pub mod Bound
pub mod Lost
pub mod Yields
pub mod Blind
pub mod Wiring
pub mod Rows
pub mod Others
pub mod Outcome
pub mod Returns
