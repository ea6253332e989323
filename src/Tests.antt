-- ===== src/Tests.antt =====
-- Some of the tests of crates/daphne-sc-core, daphne-sc-rpu and daphne-sc-server, the fake hardware, and the
-- theorems at concrete inputs.
pub mod Fake
pub mod Core
pub mod ClockChip
pub mod Board
pub mod Collector
pub mod Endpoint
pub mod Hw
pub mod Link
pub mod Mmio
pub mod Rpu
pub mod Server
pub mod Transport
