-- ===== src/Oracle.antt =====
-- crates/propsim-oracle: the sequential models and the linearizability checker.
pub mod Model
pub mod Linearizability
