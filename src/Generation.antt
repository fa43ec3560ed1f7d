-- ===== src/Generation.antt =====
-- Persistent generation jobs: isekai_memory/generation/queue.py.
mod Jobs
pub mod Queue
pub mod Invariant
pub mod Preserved
pub mod Recorded
pub mod Claiming
pub mod Fencing
pub mod Workers
pub mod Retried
mod Tests
pub use Jobs.*
