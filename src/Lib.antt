-- ===== src/Lib.antt =====
-- Verification of Ryvix, which runs coding tasks and repairs servers.
--
-- A web request admits a prompt to the durable queue of a project; a worker claims the job under a
-- lease, runs it in a sandbox through stages, verifies the change with one repair at most, and
-- completes, defers or fails it; the creator may cancel or delete the task at any time. A separate
-- engine heals servers by registered actions.
--
-- - Queue: backend/src/services/repository-job-store.ts (class RepositoryJobStore) and
--   web/utils/task-lifecycle.ts (changeTaskLifecycle). The state is the record `Db` of tables
--   (Queue/Model), a transaction is a step of it that is rolled back on an error (Queue/Base), and
--   each method is a function with the database's clock and the identifiers that the database
--   generates as arguments: enqueue and claim (Queue/Admission), heartbeat, credentials, progress,
--   session and plan (Queue/Worker), defer_quota, complete, fail and expire_leases (Queue/Finish),
--   the sandboxes of a host (Queue/Sessions), cancellation and deletion (Queue/Lifecycle).
--   Queue/Run puts the calls of all clients in any order: transactions are serial, as the row locks
--   of the source make them on the rows that they write. The theorems are in Queue/Invariant,
--   Queue/Cancellation, Queue/Deletion, Queue/Claiming, Queue/Results and Queue/Outcomes. The rows
--   that go along with a deleted task are those of the schema in supabase/migrations.
-- - Checks: services/src/workspace/repair-checks.ts. The loop of two attempts recurses on the
--   attempts that are left, 2 at the start; the bound is the source's own, and the source's error
--   after the loop is kept.
-- - Progress: services/src/workspace/task-progress.ts, the stage events that the queue records.
-- - Recovery: services/src/self-healing/self-healing.engine.ts, the registry of actions, the policy
--   and a run with its circuit breaker.
-- - Cloud: services/src/connector/cloud-recovery.bridge.ts (class CloudRecoveryBridge) with
--   requireAuthorization of backend/src/services/operation-authorization.ts; the adapters and the
--   audit writer are steps of any world that may throw.
-- - Commands: backend/src/services/server-command-store.ts (class ServerCommandStore), commands that
--   one person requests, another approves and a server fetches: request and decide
--   (Commands/Requests), admission of a signed request and the receipt (Commands/Device), delivery
--   (Commands/Poll). The verdict on the signature and the list of allowed services are parameters.
-- - ApiKeys: services/src/security/api-key.service.ts (class ApiKeySecurityService), with the hash as a
--   parameter.
-- - KillChain: ai/src/kill-chain-correlator.ts (class KillChainCorrelator), the history of signals as
--   a list, with the clock at each call.
-- - Memory: ai/src/memory/short-term-memory.ts (class ShortTermMemoryManager), a map of sessions with
--   the clock at each call; the bound of turns is the source's configuration.
-- - Monitor: evaluateServerHealth of services/src/monitoring/external-monitor.ts, with the two times
--   and the probe as arguments.
-- - RootCause: ai/src/cascading-root-cause.ts (class CascadingRootCauseAnalyzer), the dependency graph
--   as a list of services.
-- - Sandbox.Paths, Sandbox.Policy and Sandbox.Diff: services/src/workspace/static-policy.ts,
--   services/src/workspace/task-artifacts.ts (measuredFileDiff) and filePath of
--   services/src/workspace/docker-workspace.manager.ts, on lists of code units; the lower case of
--   text that is not ASCII is a parameter.
-- - Workspace: class DockerWorkspaceManager of services/src/workspace/docker-workspace.manager.ts
--   (createSession, allocate, executeCommand, applyDiff, deleteFile, readFile,
--   prepareStaticSnapshot, terminateSession, restoreSession) and
--   services/src/workspace/host-budget.ts. Docker is a parameter that answers each call from the
--   calls before it; the search for a port runs on fuel for the 900 ports of its range. These methods
--   run as a whole; Workspace/Segments has what creation, commands and termination do to the sessions
--   and ports between two awaits, and Workspace/Overlaps any interleaving of these parts, without
--   takeovers.
-- - Cluster: services/src/connector/cluster-security.coordinator.ts (class ClusterSecurityCoordinator),
--   the map of nodes and the log of incidents; the agents and the analysis are parameters.
--
-- Common holds the shared types and lemmas: lists over native numbers, tables as association lists
-- (Common/Table), and steps of a world that may throw (Common/Effect). The callbacks of the source
-- (checks, repairs, observers, executors) and its clock are parameters, in any world.
--
-- Identifiers are numbers, since the code only compares them; times are milliseconds. Not modelled:
-- failing connections and SQL errors, the column updated_at, hashes in audit rows, the texts of
-- most messages, and every part that only calls a network, a model provider or a page.
mod Common
pub mod Progress
pub mod Checks
pub mod Queue
pub mod Commands
pub mod Recovery
pub mod Cloud
pub mod ApiKeys
pub mod KillChain
pub mod Memory
pub mod Monitor
pub mod RootCause
pub mod Sandbox
pub mod Workspace
pub mod Cluster
