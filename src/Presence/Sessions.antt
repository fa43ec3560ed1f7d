-- ===== src/Presence/Sessions.antt =====
-- The sessions of observers, isekai_memory/continuity/presence.py, over the tables that it reads and
-- writes. Each operation is one transaction behind the project's lock.
pub mod Rows
pub mod Reports
pub mod Operations
pub mod Heartbeats
pub mod Administration
pub mod Changes
pub mod Effects
pub mod Maintained
pub mod History
pub mod Promises
pub mod Limits
pub mod Servable
pub mod Answers
mod Tests
