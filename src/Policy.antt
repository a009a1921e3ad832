-- ===== src/Policy.antt =====
-- The permission policy of crates/harness-policy: what a tool call may do, and who decides.
pub mod Types
pub mod Paths
pub mod Protected
pub mod Commands
pub mod Risks
pub mod Rules
pub mod Engine
pub mod Access
pub mod Guarantees
mod Examples
