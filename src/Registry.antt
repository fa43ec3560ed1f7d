-- ===== src/Registry.antt =====
-- Artifact policies: isekai_memory/registry/policy.py.
mod Version
pub mod Order
pub mod Range
pub mod Best
pub mod Rows
pub mod Text
pub mod Parse
pub mod Print
pub mod RoundTrip
pub mod Canonical
mod Tests
pub use Version.*
