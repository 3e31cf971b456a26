-- ===== src/Sim/Faults.antt =====
-- crates/propsim-sim/src/faults.rs: lowering a fault description onto the timeline.
pub mod Calls
pub mod Liveness
pub mod Addressed
use propsim.Base.{
  ℕ, zero, suc, ◌+◌, ◌-◌, max, Bool, true, false, ◌&&◌, Option, none, some, List, [], ◌∷◌, leb,
  if◌then◌else◌,
}
use propsim.Float64.{half_float}
use propsim.Core.Node.{NodeId, millis}
use propsim.Core.Transport.{NetworkModel}
use propsim.Core.Faults.{
  Mode, liveness, safety, FaultKind, ScriptedAction, ScriptedEvent, Faults, swarm_kinds, script,
}
use propsim.Sim.Rng.{SimRng, chance, range_u64}
use propsim.Sim.Scheduler.{SchedCore, FaultAction, schedule_fault}

unfoldable pub lower_action : ScriptedAction → FaultAction
lower_action (ScriptedAction.partition a b) = FaultAction.partition a b
lower_action ScriptedAction.heal_all = FaultAction.heal_all
lower_action (ScriptedAction.crash n) = FaultAction.crash n
lower_action (ScriptedAction.restart n) = FaultAction.restart n

-- `(from..from + n).map(NodeId)`.
unfoldable pub node_range : ℕ → ℕ → List NodeId
node_range from zero = []
node_range from (suc n) = from ∷ node_range (suc from) n

-- `kinds.filter(|_| rng.chance(0.5))`.
unfoldable pub choose_kinds : List FaultKind → SimRng → List FaultKind × SimRng
choose_kinds [] rng = ([], rng)
choose_kinds (k ∷ ks) rng =
    let (keep, rng') = chance rng half_float in
    let (rest, rng'') = choose_kinds ks rng' in (if keep then k ∷ rest else rest, rng'')

abbrev is_liveness : Mode → Bool
is_liveness liveness = true
is_liveness safety = false

-- The variables of `lower_swarm`.
pub record Swarm (M T : Type 0) : Type 0 where
  pub model : NetworkModel
  pub core : SchedCore M T
  pub rng : SimRng
  pub scheduled_partition : Bool

module _ {M T : Type 0} where
  unfoldable pub lower_script : List ScriptedEvent → SchedCore M T → SchedCore M T
  lower_script [] c = c
  lower_script (ev ∷ evs) c = lower_script evs (schedule_fault c ev.at (lower_action ev.action))

  unfoldable pub swarm_partition : ℕ → Swarm M T → Swarm M T
  swarm_partition node_count s =
      if leb 2 node_count
      then (let (cut, rng) = range_u64 s.rng 1 node_count in
          let (at, rng') = range_u64 rng 100 1000 in
          let action =
            FaultAction.partition (node_range 0 cut) (node_range cut (node_count - cut)) in
          record s {
            core = schedule_fault s.core (millis at) action;
            rng = rng';
            scheduled_partition = true;
          })
      else s

  unfoldable pub swarm_crash : Mode → ℕ → Swarm M T → Swarm M T
  swarm_crash mode node_count s =
      let (victim, rng) = range_u64 s.rng 0 (max node_count 1) in
      let (at, rng') = range_u64 rng 100 1000 in
      let core = schedule_fault s.core (millis at) (FaultAction.crash victim) in
      if is_liveness mode
      then (let (after, rng'') = range_u64 rng' 500 2000 in
          record s {
            core = schedule_fault core (millis at + millis after) (FaultAction.restart victim);
            rng = rng'';
          })
      else record s { core = core; rng = rng' }

  unfoldable pub lower_kind : Mode → ℕ → FaultKind → Swarm M T → Swarm M T
  lower_kind mode node_count (FaultKind.latency start end) s = record s {
    model = record (s.model) { delay_start = start; delay_end = end };
  }
  lower_kind mode node_count (FaultKind.drop p) s = record s {
    model = record (s.model) { loss = p };
  }
  lower_kind mode node_count (FaultKind.duplicate p) s = record s {
    model = record (s.model) { duplicate = p };
  }
  lower_kind mode node_count FaultKind.reorder s = record s {
    model = record (s.model) { ordered = false };
  }
  lower_kind mode node_count FaultKind.partitions s = swarm_partition node_count s
  lower_kind mode node_count FaultKind.crash_restart s = swarm_crash mode node_count s

  unfoldable pub lower_kinds : Mode → ℕ → List FaultKind → Swarm M T → Swarm M T
  lower_kinds mode node_count [] s = s
  lower_kinds mode node_count (k ∷ ks) s =
      lower_kinds mode node_count ks (lower_kind mode node_count k s)

  -- In liveness mode a partition is healed again.
  unfoldable pub lower_swarm :
      List FaultKind
      → Mode
      → ℕ
      → NetworkModel
      → SchedCore M T
      → SimRng
      → NetworkModel × SchedCore M T
  lower_swarm kinds mode node_count model core rng =
      let (enabled, rng') = choose_kinds kinds rng in
      let start : Swarm M T = record {
        model = model;
        core = core;
        rng = rng';
        scheduled_partition = false;
      } in
      let s = lower_kinds mode node_count enabled start in
      if is_liveness mode && s.scheduled_partition
      then (let (heal_at, _) = range_u64 s.rng 2000 4000 in
          (s.model, schedule_fault s.core (millis heal_at) FaultAction.heal_all))
      else (s.model, s.core)

  unfoldable pub lower :
      Option Faults → NetworkModel → SchedCore M T → SimRng → ℕ → NetworkModel × SchedCore M T
  lower none model core rng node_count = (model, core)
  lower (some faults) model core rng node_count = elim (script faults) [
    | some events ↦ (model, lower_script events core)
    | none ↦ elim (swarm_kinds faults) [
      | none ↦ (model, core)
      | some kinds ↦ lower_swarm kinds faults.mode node_count model core rng
    ]
  ]
