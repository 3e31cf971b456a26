-- ===== src/Sim/Driver.antt =====
-- crates/propsim-sim/src/lib.rs: the driver of one run.
pub mod Run
pub mod Calls
pub mod Issuing
pub mod Addressed
pub mod Load
use propsim.Base.{
  ℕ, zero, suc, ◌+◌, ◌%◌, max, Bool, true, false, Option, none, some, List, [], ◌∷◌, ◌++◌, Text,
  ltb, leb, if◌then◌else◌, length, get_elem?, get_or, set, replicate,
}
use Prim.Native.Nat.{bit_xor}
use propsim.History.{History, OpKind, Function, ProcessId}
use propsim.History.Values.{Value, Values}
use propsim.Core.Node.{
  Node, NodeId, OpToken, Duration, secs, millis, Effect, OpOutcome, ClientCodec,
}
use propsim.Core.Transport.{NetworkModel, ordered_reliable}
use propsim.Core.Faults.{Faults, ScriptedEvent, script}
use propsim.Core.Plan.{PlanData, FrozenOp, Scenario, Seed, NodeDef, state_machine, spawn_each}
use propsim.Sim.Rng.{new}
use propsim.Sim.Scheduler.{
  SchedCore, PoppedEvent, RunEvent, init, open_op, close_op, pop, closed_for, schedule_client_op,
  force_close_pending,
}
use propsim.Sim.Ctx.{run_effect}
use propsim.Sim.Faults.{lower}

-- The state of the driver beside the scheduler's: the queued op indices and the number of
-- scheduled ops of each process.
pub record Issue (M T : Type 0) : Type 0 where
  pub core : SchedCore M T
  pub per_process : List (List ℕ)
  pub scheduled : List ℕ

unfoldable pub latest_event : Duration → List ScriptedEvent → Duration
latest_event latest [] = latest
latest_event latest (ev ∷ evs) = latest_event (if ltb latest ev.at then ev.at else latest) evs

abbrev or_else : {A : Type 0} → Option A → Option A → Option A
or_else (some a) b = some a
or_else none b = b

abbrev replay_faults : Option Scenario → Option Faults
replay_faults none = none
replay_faults (some s) = some s.faults

-- The script of a fault description, if it is a scripted one.
abbrev script_events : Option Faults → List ScriptedEvent
script_events none = []
script_events (some f) = elim (script f) [ none ↦ [] | some events ↦ events ]

unfoldable pub run_horizon : PlanData → Duration
run_horizon data' =
    let faults = or_else data'.faults (replay_faults data'.replay) in
    max (latest_event (secs 5) (script_events faults) + secs 10) (secs 10)

-- "op".
abbrev pub op_name : Function
op_name = 111 ∷ 112 ∷ []

unfoldable pub op_function : Value → Function
op_function (Value.keyword k) = k
op_function (Value.list (Values.cons (Value.keyword k) rest)) = k
op_function (Value.list _) = op_name
op_function _ = op_name

-- `per_process[(process) % n].push_back(i)` for the op at each index from `i`.
unfoldable pub group_ops : ℕ → ℕ → List FrozenOp → List (List ℕ) → List (List ℕ)
group_ops n i [] queues = queues
group_ops n i (op ∷ ops) queues =
    let p = op.process % n in group_ops n (suc i) ops (set queues p (get_or queues p [] ++ i ∷ []))

-- The target of an op, `route` or `process` modulo the number of nodes.
unfoldable pub op_target : ℕ → NodeId → Option NodeId → ℕ
op_target n process none = process % n
op_target n process (some node) = node % n

module _ {M T : Type 0} where
  -- `per_process[p].front()` and what is done with it.
  unfoldable pub issue_next : ℕ → List ℕ → Issue M T → Issue M T
  issue_next p [] s = s
  issue_next p (idx ∷ rest) s = record s {
    per_process = set s.per_process p rest;
    scheduled = set s.scheduled p (suc (get_or s.scheduled p 0));
    core = schedule_client_op s.core (s.core.now + millis 1) p idx;
  }

  -- The body of the loop of `pump_client_ops` for process `p`.
  unfoldable pub pump_one : ℕ → Issue M T → Issue M T
  pump_one p s =
      if ltb (closed_for s.core.history p) (get_or s.scheduled p 0)
      then s
      else issue_next p (get_or s.per_process p []) s

  -- The processes 0 to n - 1, in order.
  unfoldable pub pump_client_ops : ℕ → Issue M T → Issue M T
  pump_client_ops zero s = s
  pump_client_ops (suc n) s = pump_one n (pump_client_ops n s)

module _ (N : Node) (codec : Option (ClientCodec N.Op N.Response)) where
  open N use {
    State, Msg, Timer, Op, Response, initial, debug, on_start, on_msg, on_timer, on_client_op,
  }

  -- The scheduler and the slots of the nodes.
  abbrev pub World : Type 0
  World = SchedCore Msg Timer × List (Option State)

  -- A callback of node `id`: take the node out, run it, put it back. `none` is the panic of an
  -- index out of bounds; an empty slot is passed over.
  unfoldable pub dispatch :
      World → NodeId → (State → Effect Msg Timer Response State) → Option World
  dispatch (core, nodes) id callback = elim (get_elem? nodes id) [
    | none ↦ none
    | some none ↦ some (core, nodes)
    | some (some node) ↦
        let (core', node') = run_effect debug codec id (callback node) core in
        some (core', set nodes id (some node'))
  ]

  unfoldable pub dispatch_start : World → NodeId → Option World
  dispatch_start w id = dispatch w id on_start

  unfoldable pub dispatch_msg : World → NodeId → NodeId → Msg → Option World
  dispatch_msg w to from msg = dispatch w to (λ node. on_msg node from msg)

  unfoldable pub dispatch_timer : World → NodeId → Timer → Option World
  dispatch_timer w id tag = dispatch w id (λ node. on_timer node tag)

  abbrev decode_op : Value → Option (Function × Op)
  decode_op v = elim codec [ none ↦ none | some c ↦ c.decode v ]

  abbrev encode_done : Function → Response → Value
  encode_done f resp = elim codec [ none ↦ Value.nil | some c ↦ c.encode_response f resp ]

  -- What follows the callback of a client op.
  unfoldable pub settle :
      SchedCore Msg Timer → OpToken → Function → OpOutcome Response → SchedCore Msg Timer
  settle core token f (OpOutcome.done resp) = close_op core token OpKind.ok (encode_done f resp)
  settle core token f OpOutcome.pending = core

  unfoldable pub deliver_op : World → ℕ → ProcessId → FrozenOp → Function → Op → Option World
  deliver_op (core, nodes) target pid op f typed_op =
      let (opened, token) = open_op core pid f op.op in
      elim (get_elem? nodes target) [
        | none ↦ none
        | some none ↦ some (close_op opened token OpKind.info Value.nil, nodes)
        | some (some node) ↦
            let (core', (node', outcome)) =
              run_effect debug codec target (on_client_op node typed_op token) opened in
            some (settle core' token f outcome, set nodes target (some node'))
      ]

  unfoldable pub dispatch_client_op : World → NodeId → FrozenOp → Option World
  dispatch_client_op (core, nodes) process op = elim (decode_op op.op) [
    | none ↦
        let (opened, token) = open_op core process (op_function op.op) op.op in
        some (close_op opened token OpKind.fail Value.nil, nodes)
    | some (f, typed_op) ↦
        deliver_op (core, nodes) (op_target (length nodes) process op.route) process op f typed_op
  ]

  -- The `match` of the main loop.
  unfoldable pub handle : List FrozenOp → World → PoppedEvent Msg Timer → Option World
  handle ops w (PoppedEvent.deliver from to msg) = dispatch_msg w to from msg
  handle ops w (PoppedEvent.timer node tag) = dispatch_timer w node tag
  handle ops w (PoppedEvent.client_op process index) = elim (get_elem? ops index) [
    | none ↦ none
    | some op ↦ dispatch_client_op w process op
  ]
  handle ops w (PoppedEvent.fault none) = some w
  handle ops w (PoppedEvent.fault (some n)) = dispatch_start w n
