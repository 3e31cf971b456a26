-- ===== src/Core/World.antt =====
-- crates/propsim-core/src/world.rs: the snapshot that a property reads, and the trace of them.
use propsim.Base.{List}
use propsim.History.{History}
use propsim.Core.Node.{Duration}

pub record World (S : Type 0) : Type 0 where
  pub nodes : List S
  pub history : History
  pub now : Duration

-- `World::new`.
abbrev pub new : {S : Type 0} → List S → History → Duration → World S
new nodes history now = record { nodes = nodes; history = history; now = now }

pub record WorldTrace (S : Type 0) : Type 0 where
  pub frames : List (Duration × List S)
  pub history : History

-- The state of a trace whose node type is not known.
pub data ErasedState : Type 0 where
  erased_state : ErasedState
