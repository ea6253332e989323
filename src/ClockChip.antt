-- ===== src/ClockChip.antt =====
-- The programming of the clock chip, crates/daphne-sc-core/src/clockchip.rs, over a bus, which is a
-- parameter.
pub mod Registers
pub mod Program
pub mod Texts
pub mod RegisterFile
pub mod Steps
pub mod Refinement
pub mod Verification
pub mod Image
