-- ===== src/Queue.antt =====
-- The durable queue of repository tasks: backend/src/services/repository-job-store.ts and the
-- cancellation and deletion of web/utils/task-lifecycle.ts.
pub mod Model
mod Text
mod Tests
pub mod Base
pub mod Admission
pub mod Worker
pub mod Finish
pub mod Lifecycle
pub mod Sessions
pub mod Run
pub mod Invariant
pub mod Results
pub mod Outcomes
pub mod Claiming
pub mod Cancellation
pub mod Deletion
