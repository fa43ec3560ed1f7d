-- ===== src/Usage/Ledger.antt =====
-- The ledger of reported token usage, isekai_memory/continuity/usage.py, over the tables that it reads
-- and writes. Each operation is one transaction behind the project's lock.
pub mod Rows
pub mod Operations
pub mod Reports
pub mod Administration
pub mod Changes
pub mod Effects
pub mod History
pub mod Promises
pub mod Limits
mod Tests
