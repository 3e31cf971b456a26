-- ===== src/Sim.antt =====
-- crates/propsim-sim: the deterministic executor.
pub mod Rng
pub mod Scheduler
pub mod Ctx
pub mod Faults
pub mod Driver
pub mod Properties
pub mod Drive
