-- ===== src/Server/Afe.antt =====
-- The handlers of crates/daphne-sc-server/src/handlers.rs for messages that go to the RPU.
pub mod Writes
pub mod Reads
pub mod Align
unfoldable pub use Writes.*
unfoldable pub use Reads.*
