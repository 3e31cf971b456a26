-- ===== src/Facade/Presets.antt =====
-- crates/propsim/src/backend_presets.rs: the deterministic backend, and the executor of
-- crates/propsim-sim/src/lib.rs that it stands on. The preset of Jepsen is unimplemented.
use propsim.Base.{[]}
use propsim.Core.Oracle.{plain_output}
use propsim.Core.Backend
use propsim.Core.Backend.{Executor, Backend, BackendBuilder, custom, attach, build}

-- Erased of its node type the executor runs nothing: its history is empty.

unfoldable pub deterministic_executor : Executor
deterministic_executor = record {
  capabilities = Backend.deterministic;
  run = λ plan seed. plain_output [] seed;
}

-- `backend_presets::deterministic`, and `rigorous`, which builds the same.
unfoldable pub deterministic : Backend
deterministic = build (custom deterministic_executor)
