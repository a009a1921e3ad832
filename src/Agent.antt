-- ===== src/Agent.antt =====
-- The agent loop's own logic, of crates/harness-agent/src/lib.rs: plans, goals, limits, approvals and
-- the model history.
pub mod Bounded
pub mod Plans
pub mod Revision
pub mod Approval
pub mod Cost
pub mod Limits
pub mod Lines
pub mod Goals
pub mod Steps
pub mod Directives
pub mod History
pub mod Metrics
pub mod Start
pub mod Reports
pub mod Verify
pub mod Turn
pub mod Finish
mod Examples
