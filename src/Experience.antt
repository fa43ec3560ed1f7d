-- ===== src/Experience.antt =====
-- Reviewed experiences and their suppression: isekai_memory/experience/lifecycle.py.
mod Rows
pub mod Lifecycle
pub mod Blocked
pub mod Outcomes
mod Tests
pub use Rows.*
