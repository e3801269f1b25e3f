-- ===== src/Orchestrator.antt =====
-- orchestrator: the layer that accounts for tasks, stores them durably and runs them.
pub mod Usage
pub mod Breaker
pub mod RateLimit
pub mod Costing
pub mod Logging
pub mod Core
pub mod Store
pub mod Stubs
pub mod Workflow
pub mod Api
pub mod Lifecycle
