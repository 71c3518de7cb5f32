-- ===== src/Workspace.antt =====
-- Docker workspaces of tasks: services/src/workspace/docker-workspace.manager.ts and
-- services/src/workspace/host-budget.ts.
pub mod Model
pub mod Budget
pub mod Lifetime
pub mod Commands
pub mod Files
pub mod Ports
pub mod Effects
pub mod Allocation
pub mod Termination
pub mod Creation
pub mod Starts
pub mod Execution
pub mod Histories
pub mod Segments
pub mod Overlaps
pub mod Tally
pub mod Capacity
pub mod Writes
mod Tests
