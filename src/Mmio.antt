-- ===== src/Mmio.antt =====
-- crates/daphne-sc-rpu/src/mmio.rs: the AFE hardware behind memory-mapped registers.
pub mod Backend
pub mod Steps
pub mod Access
pub mod Spi
pub mod Channels
pub mod Alignment
pub mod Hardware
pub mod Tally
pub mod Calls
