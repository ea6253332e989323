-- ===== src/Server/Collector.antt =====
-- The readings of the board, crates/daphne-sc-server/src/status_collector.rs.
pub mod Floats
pub mod Sysfs
pub mod Buses
pub mod Readings
pub mod Services
pub mod Whole
pub mod Registered
pub mod Devices
