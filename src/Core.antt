-- ===== src/Core.antt =====
-- crates/propsim-core: the contract between plans, executors, nodes and oracles.
pub mod Node
pub mod Transport
pub mod Faults
pub mod Plan
pub mod Seed
pub mod World
pub mod Artifacts
pub mod Oracle
pub mod Property
pub mod TestPlan
pub mod Backend
pub mod Display
