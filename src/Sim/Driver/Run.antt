-- ===== src/Sim/Driver/Run.antt =====
-- crates/propsim-sim/src/lib.rs: `run_deterministic`. The main loop takes fuel, one unit for each
-- event that `pop` hands over, since a node may keep a run going for ever.
pub mod Rule
pub mod Reach
pub mod Links
pub mod Replay
pub mod Queue
pub mod Timers
pub mod Time
pub mod Sequential
pub mod Safe
pub mod Ends
use Prim.Native.Nat.{bit_xor}
use propsim.Base.{ℕ, zero, suc, max, Option, none, some, List, [], ◌∷◌, ◌++◌, replicate, length}
use propsim.History.{History}
use propsim.Core.Node.{Node, Duration, ClientCodec}
use propsim.Core.Transport.{NetworkModel, ordered_reliable}
use propsim.Core.Plan.{PlanData, FrozenOp, Seed, NodeDef, spawn_each}
use propsim.Sim.Rng.{new}
use propsim.Sim.Scheduler.{SchedCore, RunEvent, init, pop, force_close_pending}
use propsim.Sim.Faults.{lower}
use propsim.Sim.Driver.{
  Issue, World, run_horizon, group_ops, pump_client_ops, dispatch_start, handle,
}

-- A frame is the time and the states of the nodes whose slot is full.

abbrev pub Frames : Type 0 → Type 0
Frames S = List (Duration × List S)

pub record TypedRun (S : Type 0) : Type 0 where
  pub history : History
  pub frames : Frames S
  pub events : List RunEvent
  pub seed : Seed

pub data RunResult (S : Type 0) : Type 0 where
  ran : TypedRun S → RunResult S
  no_executor : RunResult S
  out_of_bounds : RunResult S
  out_of_fuel : RunResult S

unfoldable pub full_slots : {S : Type 0} → List (Option S) → List S
full_slots [] = []
full_slots (none ∷ slots) = full_slots slots
full_slots (some s ∷ slots) = s ∷ full_slots slots

abbrev model_of : Option NetworkModel → NetworkModel
model_of none = ordered_reliable
model_of (some m) = m

-- `resolve_ops`: a replayed scenario pins the ops; without a workload there are none; otherwise
-- they are what the third-party strategy generates for the seed, which is an argument.
unfoldable pub resolve_ops : PlanData → Option (List FrozenOp) → List FrozenOp
resolve_ops data' generated = elim data'.replay [
  | some scenario ↦ scenario.ops
  | none ↦ elim generated [ none ↦ [] | some ops ↦ ops ]
]

module _ (N : Node) (codec : Option (ClientCodec N.Op N.Response)) where
  open N use {State, Msg, Timer, initial}

  -- The variables of the main loop.
  pub record Loop : Type 0 where
    pub issue : Issue Msg Timer
    pub nodes : List (Option State)
    pub frames : Frames State

  -- `snapshot`.
  unfoldable pub snapshot : Loop → Loop
  snapshot l = record l { frames = l.frames ++ (l.issue.core.now, full_slots l.nodes) ∷ [] }

  -- What follows a handled event: issue the next ops and record a frame.
  unfoldable pub after_event : ℕ → Loop → World N codec → Loop
  after_event node_count l (core, nodes) =
      let issue = pump_client_ops node_count (record (l.issue) { core = core }) in
      snapshot (record l { issue = issue; nodes = nodes })

  unfoldable pub finish : Seed → Loop → TypedRun State
  finish seed l =
      let core = force_close_pending l.issue.core in
      record { history = core.history; frames = l.frames; events = core.events; seed = seed }

  -- `while let Some(ev) = core.pop()` and the end of the run.
  unfoldable pub main_loop : ℕ → ℕ → Seed → List FrozenOp → Loop → RunResult State
  main_loop zero node_count seed ops l = out_of_fuel
  main_loop (suc fuel) node_count seed ops l =
      let (core, popped) = pop N.debug l.issue.core in
      elim popped [
        | none ↦ ran (finish seed (record l { issue = record (l.issue) { core = core } }))
        | some ev ↦ elim (handle N codec ops (core, l.nodes) ev) [
          | none ↦ out_of_bounds
          | some w ↦ main_loop fuel node_count seed ops (after_event node_count l w)
        ]
      ]

  -- `on_start` of the nodes 0 to n - 1, in order.
  unfoldable pub start_nodes : ℕ → World N codec → Option (World N codec)
  start_nodes zero w = some w
  start_nodes (suc n) w = elim (start_nodes n w) [
    | none ↦ none
    | some w' ↦ dispatch_start N codec w' n
  ]

  -- The scheduler before the nodes start, with the faults on its timeline.
  unfoldable pub prepare : PlanData → Seed → SchedCore Msg Timer
  prepare data' seed =
      let node_count = max data'.nodes 1 in
      let model = model_of data'.network in
      let core : SchedCore Msg Timer = record (init seed model node_count) {
        horizon = run_horizon data';
      } in
      let (model', core') =
        lower data'.faults model core (new (bit_xor seed 0xF0F0_F0F0)) node_count in
      record core' { model = model' }

  -- The state of the loop when it is entered.
  unfoldable pub enter : ℕ → List FrozenOp → World N codec → Loop
  enter node_count ops (core, nodes) =
      let issue : Issue Msg Timer = record {
        core = core;
        per_process = group_ops node_count 0 ops (replicate node_count []);
        scheduled = replicate node_count 0;
      } in
      let framed = snapshot (record { issue = issue; nodes = nodes; frames = [] }) in
      record framed { issue = pump_client_ops node_count issue }

  unfoldable pub run_deterministic :
      ℕ → PlanData → Option NodeDef → Option (List FrozenOp) → Seed → RunResult State
  run_deterministic fuel data' (some spawn_each) generated seed = no_executor
  run_deterministic fuel data' _ generated seed =
      let node_count = max data'.nodes 1 in
      let ops = resolve_ops data' generated in
      elim (start_nodes node_count (prepare data' seed, replicate node_count (some initial))) [
        | none ↦ out_of_bounds
        | some w ↦ main_loop fuel node_count seed ops (enter node_count ops w)
      ]
