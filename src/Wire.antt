-- ===== src/Wire.antt =====
-- crates/daphne-sc-core/src/rpu_wire.rs: the fixed-size frames between the Linux server and the RPU.
pub mod Ops
pub mod Error
pub mod Command
pub mod Payload
pub mod FromAfe
pub mod Reply
pub mod Codes
pub mod RoundTrip
