-- ===== src/Context.antt =====
-- The context of a model request, of crates/harness-context/src/lib.rs: what fits into the budget.
pub mod Budget
pub mod Truncate
pub mod Items
pub mod Input
pub mod Candidates
mod Examples
