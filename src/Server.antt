-- ===== src/Server.antt =====
-- The server of crates/daphne-sc-server: the requests it answers.
pub mod Preflight
pub mod Messages
pub mod Status
pub mod Collector
pub mod Commands
pub mod Submit
pub mod Afe
pub mod Handlers
pub mod Answers
pub mod Gate
pub mod Checked
pub mod Router
