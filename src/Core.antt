-- ===== src/Core.antt =====
-- The types that every crate shares, of crates/harness-core.
pub mod Errors
pub mod Ids
