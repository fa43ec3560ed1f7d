-- ===== src/Retrieval.antt =====
-- Retrieval of approved experiences: isekai_memory/retrieval.
pub mod Rows
pub mod Citations
pub mod Service
pub mod Fit
pub mod Visibility
pub mod Packing
pub mod Budget
pub mod Shown
mod Tests
