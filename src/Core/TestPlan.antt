-- ===== src/Core/TestPlan.antt =====
-- crates/propsim-core/src/plan.rs: the builder of a test plan and the plan that it builds. The
-- third-party proptest strategy of a workload is what it generates for each seed.
use propsim.Base.{ℕ, Option, none, some, List, [], ◌++◌}
use propsim.Core.Node.{ClientCodec}
use propsim.Core.Transport.{NetworkModel}
use propsim.Core.Faults.{Faults}
use propsim.Core.Plan.{
  FrozenOp, Scenario, PlanData, NodeDef, state_machine, spawn_each, Seed, replay_with,
}
use propsim.Core.Property.{Property}

abbrev pub Strategy : Type 0
Strategy = Seed → List FrozenOp

pub record PlanBuilder (State Op Response : Type 0) : Type 0 where
  pub nodes : ℕ
  pub network : Option NetworkModel
  pub node_def : Option NodeDef
  pub workload : Option Strategy
  pub client : Option (ClientCodec Op Response)
  pub faults : Option Faults
  pub properties : List (Property State)
  pub seeds : ℕ
  pub replay : Option Scenario

pub record TestPlan (State Op Response : Type 0) : Type 0 where
  pub data' : PlanData
  pub node_def : Option NodeDef
  pub workload : Option Strategy
  pub client : Option (ClientCodec Op Response)
  pub properties : List (Property State)

module _ {State Op Response : Type 0} where
  -- `Simulation::plan`.
  unfoldable pub plan : PlanBuilder State Op Response
  plan = record {
    nodes = 0;
    network = none;
    node_def = none;
    workload = none;
    client = none;
    faults = none;
    properties = [];
    seeds = 0;
    replay = none;
  }

  unfoldable pub with_nodes : PlanBuilder State Op Response → ℕ → PlanBuilder State Op Response
  with_nodes b n = record b { nodes = n }

  unfoldable pub with_transport :
      PlanBuilder State Op Response → NetworkModel → PlanBuilder State Op Response
  with_transport b model = record b { network = some model }

  unfoldable pub with_state_machine : PlanBuilder State Op Response → PlanBuilder State Op Response
  with_state_machine b = record b { node_def = some state_machine }

  unfoldable pub with_spawn_each : PlanBuilder State Op Response → PlanBuilder State Op Response
  with_spawn_each b = record b { node_def = some spawn_each }

  unfoldable pub with_workload :
      PlanBuilder State Op Response → Strategy → PlanBuilder State Op Response
  with_workload b strategy = record b { workload = some strategy }

  unfoldable pub with_client :
      PlanBuilder State Op Response → ClientCodec Op Response → PlanBuilder State Op Response
  with_client b codec = record b { client = some codec }

  unfoldable pub with_faults :
      PlanBuilder State Op Response → Faults → PlanBuilder State Op Response
  with_faults b f = record b { faults = some f }

  -- `check` adds to the properties; the other methods replace.
  unfoldable pub check :
      PlanBuilder State Op Response → List (Property State) → PlanBuilder State Op Response
  check b ps = record b { properties = b.properties ++ ps }

  unfoldable pub with_seeds : PlanBuilder State Op Response → ℕ → PlanBuilder State Op Response
  with_seeds b n = record b { seeds = n }

  unfoldable pub finish : PlanBuilder State Op Response → TestPlan State Op Response
  finish b = record {
    data' = record {
      nodes = b.nodes;
      network = b.network;
      faults = b.faults;
      seeds = b.seeds;
      replay = b.replay;
    };
    node_def = b.node_def;
    workload = b.workload;
    client = b.client;
    properties = b.properties;
  }

  -- `TestPlan::replay`.
  unfoldable pub replaying : TestPlan State Op Response → Scenario → TestPlan State Op Response
  replaying p s = record p { data' = replay_with p.data' s }
