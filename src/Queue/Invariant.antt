-- ===== src/Queue/Invariant.antt =====
-- What holds of the queue's two tables between transactions, and the rules by which a write keeps it.
pub mod Coherence
pub mod Admission
pub mod Steps
pub mod Lifecycle
pub mod Run
