-- ===== src/Session.antt =====
-- The session history of crates/harness-session: the events of a session, the event bus, and the
-- store that keeps one JSON record on a line for each event.
pub mod Tasks
pub mod Compact
pub mod Events
pub mod Replay
pub mod Bus
pub mod Records
pub mod Store
pub mod Recent
mod Examples
