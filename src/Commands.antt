-- ===== src/Commands.antt =====
-- Approved commands for servers: backend/src/services/server-command-store.ts.
pub mod Model
pub mod Requests
pub mod Device
pub mod Poll
pub mod Transactions
pub mod Run
pub mod Final
pub mod Duties
pub mod Decisions
mod Tests
