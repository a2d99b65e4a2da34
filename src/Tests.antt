-- ===== src/Tests.antt =====
-- Runs of the definitions at concrete inputs, and the theorems applied to them.
pub mod Fixtures
pub mod Server
pub mod Store
pub mod Worker
pub mod Workflow
pub mod Edges
pub mod Runs
pub mod Queue
pub mod Durations
pub mod Shutdown
