-- ===== src/Core/Plan.antt =====
-- crates/propsim-core/src/plan.rs, scenario.rs and the type of seed.rs: the data of a test plan.
use propsim.Base.{ℕ, Option, none, some, List}
use propsim.History.Values.{Value}
use propsim.Core.Node.{NodeId}
use propsim.Core.Transport.{NetworkModel}
use propsim.Core.Faults.{Faults}

abbrev pub Seed : Type 0
Seed = ℕ

pub record FrozenOp : Type 0 where
  pub process : NodeId
  pub route : Option NodeId
  pub op : Value

unfoldable pub frozen_op : NodeId → Value → FrozenOp
frozen_op process op = record { process = process; route = none; op = op }

unfoldable pub routed_to : FrozenOp → NodeId → FrozenOp
routed_to o node = record o { route = some node }

pub record Scenario : Type 0 where
  pub origin_seed : Option Seed
  pub ops : List FrozenOp
  pub faults : Faults

unfoldable pub scenario : List FrozenOp → Faults → Scenario
scenario ops faults = record { origin_seed = none; ops = ops; faults = faults }

unfoldable pub from_seed : Scenario → Seed → Scenario
from_seed s seed = record s { origin_seed = some seed }

pub record PlanData : Type 0 where
  pub nodes : ℕ
  pub network : Option NetworkModel
  pub faults : Option Faults
  pub seeds : ℕ
  pub replay : Option Scenario

-- `TestPlan::replay`, on the data of the plan.
unfoldable pub replay_with : PlanData → Scenario → PlanData
replay_with d s = record d { replay = some s }

-- What drives the nodes; `spawn_each` is not implemented by the program.
pub data NodeDef : Type 0 where
  state_machine spawn_each : NodeDef
