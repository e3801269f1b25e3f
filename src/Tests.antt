-- ===== src/Tests.antt =====
-- The theorems at concrete inputs, and runs of the definitions.
mod Stores
mod Routes
mod Limits
mod Processes
mod Runs
mod Submissions
mod Lifecycles
mod Lives
mod Sessions
