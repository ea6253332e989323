-- ===== src/Runtime.antt =====
-- crates/daphne-sc-rpu/src/lib.rs: the RPU runtime, which answers command frames.
pub mod Interlock
pub mod Hardware
pub mod Handler
pub mod Steps
pub mod Safety
pub mod Config
pub mod Session
