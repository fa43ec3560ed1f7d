-- ===== src/Usage.antt =====
-- Token usage: isekai_memory/continuity/usage_metrics.py and usage.py.
mod Counters
pub mod Metrics
pub mod Revision
pub mod Aggregate
pub mod Normal
pub mod Ledger
mod Tests
pub use Counters.*
