-- ===== src/Iroh.antt =====
-- crates/propsim-iroh/src/lib.rs: the in-memory transport under iroh endpoints. It holds a network
-- model; sending is not implemented by the program.
use propsim.Base.{ℕ, Option, none, List}
use propsim.Core.Node.{NodeId}
use propsim.Core.Transport.{NetworkModel, ordered_reliable}

record IrohInMemory : Type 0 where
  model : NetworkModel

-- An opaque wire frame: its bytes.
record IrohFrame : Type 0 where
  bytes : List ℕ

-- `IrohInMemory::with`.
unfoldable with_model : NetworkModel → IrohInMemory
with_model model = record { model = model }

-- `IrohInMemory::default`.
unfoldable default : IrohInMemory
default = record { model = ordered_reliable }

-- `Transport::send`, which panics on every frame: none.
unfoldable send : IrohInMemory → NodeId → NodeId → IrohFrame → Option IrohInMemory
send transport from to msg = none
