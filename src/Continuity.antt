-- ===== src/Continuity.antt =====
-- Ownership of continuity work: isekai_memory/continuity/work.py.
pub mod Tables
pub mod Filed
pub mod Work
pub mod Renewal
pub mod Ownership
pub mod History
pub mod Promises
pub mod Fence
mod Tests
pub use Tables.*
