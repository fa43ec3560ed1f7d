-- ===== src/Presence.antt =====
-- Observed-work presence: isekai_memory/continuity/presence_state.py and presence.py. Times are
-- microseconds.
mod Times
pub mod State
pub mod Aggregate
pub mod Idle
pub mod Heartbeat
pub mod Sessions
mod Tests
pub use Times.*
