-- ===== src/Sandbox.antt =====
-- The sandbox of a task: services/src/workspace.
pub mod Paths
pub mod Policy
pub mod Diff
mod Tests
