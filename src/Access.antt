-- ===== src/Access.antt =====
-- Authentication and authorization: isekai_memory/server/auth.py.
pub mod Tokens
pub mod Checked
mod Tests
pub use Tokens.*
