-- ===== src/Core/Faults.antt =====
-- crates/propsim-core/src/faults.rs: the description of a fault regime and its builders.
pub mod Builder
use propsim.Base.{ℕ, Option, none, some, List, [], ◌∷◌, ◌++◌}
use propsim.Core.Node.{NodeId, Duration}
use propsim.Core.Transport.{Prob}

pub data Mode : Type 0 where
  safety liveness : Mode

-- `latency` carries the ends of its range.
pub data FaultKind : Type 0 where
  partitions crash_restart reorder : FaultKind
  latency : ℕ → ℕ → FaultKind
  drop duplicate : Prob → FaultKind

pub data ScriptedAction : Type 0 where
  partition : List NodeId → List NodeId → ScriptedAction
  heal_all : ScriptedAction
  crash restart : NodeId → ScriptedAction

pub record ScriptedEvent : Type 0 where
  pub at : Duration
  pub action : ScriptedAction

pub data FaultSpec : Type 0 where
  swarm_spec : List FaultKind → FaultSpec
  scripted_spec : List ScriptedEvent → FaultSpec

pub record Faults : Type 0 where
  pub spec : FaultSpec
  pub mode : Mode

unfoldable pub swarm : Faults
swarm = record { spec = swarm_spec []; mode = safety }

unfoldable pub scripted : Faults
scripted = record { spec = scripted_spec []; mode = safety }

unfoldable pub set_mode : Faults → Mode → Faults
set_mode f m = record f { mode = m }

abbrev pub kinds_of : FaultSpec → Option (List FaultKind)
kinds_of (swarm_spec kinds) = some kinds
kinds_of (scripted_spec events) = none

abbrev pub script_of : FaultSpec → Option (List ScriptedEvent)
script_of (swarm_spec kinds) = none
script_of (scripted_spec events) = some events

unfoldable pub swarm_kinds : Faults → Option (List FaultKind)
swarm_kinds f = kinds_of f.spec

unfoldable pub script : Faults → Option (List ScriptedEvent)
script f = script_of f.spec

abbrev pub add_kind : FaultKind → FaultSpec → FaultSpec
add_kind k (swarm_spec kinds) = swarm_spec (kinds ++ k ∷ [])
add_kind k (scripted_spec events) = scripted_spec events

-- The swarm verbs, `partitions` to `reorder`, call it with their kind. A no-op on a script.
unfoldable pub push_kind : Faults → FaultKind → Faults
push_kind f k = record f { spec = add_kind k f.spec }

abbrev pub add_event : ScriptedEvent → FaultSpec → FaultSpec
add_event e (swarm_spec kinds) = swarm_spec kinds
add_event e (scripted_spec events) = scripted_spec (events ++ e ∷ [])

-- `faults.at(at)` followed by a verb of `ScriptStep`. A no-op on a swarm.
unfoldable pub commit : Faults → Duration → ScriptedAction → Faults
commit f at action = record f { spec = add_event (record { at = at; action = action }) f.spec }
