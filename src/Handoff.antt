-- ===== src/Handoff.antt =====
-- Work handoffs with recoverable leases: isekai_memory/store/queries.py and
-- isekai_memory/handoff/service.py, with the writes to handoffs of
-- isekai_memory/handoff/collaboration_store.py and isekai_memory/continuity/delivery.py.
mod Rows
pub mod Lease
pub mod Settle
pub mod Queue
pub mod Renewal
pub mod Promotion
pub mod Service
pub mod Evolution
pub mod Outcomes
pub mod Steps
pub mod Safety
pub mod Retry
pub mod Progress
pub mod Machine
pub mod Moves
pub mod Refinement
pub mod Errors
mod Tests
pub use Rows.*
