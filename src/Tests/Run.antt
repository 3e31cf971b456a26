-- ===== src/Tests/Run.antt =====
-- The simulator on a two-node counter: crates/propsim-sim/src/lib.rs at work.
use mathlib.Core.List.{mem-cons_self}
use propsim.Base.{
  ◌≤◌, ℕ, ◌+◌, ◌≡◌, refl, Option, none, some, List, [], ◌∷◌, arith, text_eq, false, true,
}
use propsim.Float64.{float_lt, float_le, float_eq, unit_lt, clamp_unit, is_nan}
use propsim.Base.Maps.{lookup, insert, find, put, remove, contains}
use propsim.History.{virtual, OpKind, OpEntry, Function, virtual_nanos}
use propsim.History.Values.{Value, pos}
use propsim.Core.Node.{Node, Effect, OpOutcome, Completion, ClientCodec, duration_ms, millis}
use propsim.Core.Transport.{prob, ordered_reliable}
use propsim.Core.Faults.{
  FaultKind, Mode, Faults, scripted, commit, script, swarm_kinds, ScriptedAction,
}
use propsim.Core.Plan.{FrozenOp, PlanData, frozen_op}
use propsim.Sim.Rng.{new, wrapping_add, wrapping_mul, mix, next, chance, range_u64}
use propsim.Sim.Scheduler.{
  SchedCore, node_rejoined, earlier, keep_min, take_min, now_nanos, share_group, closed_for,
  others_below, without, victims, tokens, init, record_entry, open_op, close_op, pending_f, enqueue,
  connected, sample_delay, order_link, enqueue_copies, schedule_delivery, current_gen, bump_gen,
  close_all, apply_fault, peers, schedule_fault, schedule_client_op, force_close_pending, arm_timer,
  cancel_timer, timer_is_current, fire, pop_loop, pop, Scheduled, EventKind,
}
use propsim.Sim.Scheduler.Fifo.{IsFifo, empty-IsFifo, schedule_delivery-IsFifo, take_min-oldest}
use propsim.Sim.Scheduler.Time.{IsTimely, Indexed, InOrder, pop-IsTimely}
use propsim.Sim.Ctx.{send_each, completion_value, complete_op, run_effect}
use propsim.Sim.Faults.{
  lower_action, node_range, choose_kinds, lower_script, swarm_partition, swarm_crash, lower_kind,
  lower_kinds, lower_swarm, lower,
}
use propsim.Sim.Driver.{
  op_name, latest_event, run_horizon, op_function, group_ops, op_target, issue_next, pump_one,
  pump_client_ops, dispatch, dispatch_start, dispatch_msg, dispatch_timer, settle, deliver_op,
  dispatch_client_op, handle,
}
use propsim.Sim.Driver.Run.{
  TypedRun, RunResult, ran, full_slots, resolve_ops, snapshot, after_event, finish, main_loop,
  start_nodes, prepare, enter, run_deterministic,
}
use propsim.Sim.Scheduler.Turns.{status}
use propsim.Sim.Driver.Run.Sequential.{run-sequential}
use propsim.Sim.Faults.Liveness.{AllUndone, lower_swarm-undone}
use propsim.Sim.Driver.Run.Time.{FramesInOrder, run-InOrder}

unfoldable pub program : Unit {0}
unfolding float_lt float_le float_eq unit_lt clamp_unit is_nan lookup insert find put remove
    contains virtual_nanos duration_ms prob ordered_reliable scripted commit script swarm_kinds
    frozen_op new wrapping_add wrapping_mul mix next chance range_u64 earlier keep_min take_min
    now_nanos share_group closed_for others_below without victims tokens init record_entry open_op
    close_op pending_f enqueue connected sample_delay order_link enqueue_copies schedule_delivery
    current_gen bump_gen close_all apply_fault peers schedule_fault schedule_client_op
    force_close_pending arm_timer cancel_timer timer_is_current fire pop_loop pop send_each
    completion_value complete_op run_effect lower_action node_range choose_kinds lower_script
    swarm_partition swarm_crash lower_kind lower_kinds lower_swarm lower latest_event run_horizon
    op_function group_ops op_target issue_next pump_one pump_client_ops dispatch dispatch_start
    dispatch_msg dispatch_timer settle deliver_op dispatch_client_op handle full_slots resolve_ops
    snapshot after_event finish main_loop start_nodes prepare enter run_deterministic text_eq
program = tt

-- "add".
abbrev pub add : Function
add = 97 ∷ 100 ∷ 100 ∷ []

-- A node keeps a number. An even op is answered at once; an odd op is sent to the others, and is
-- answered by a timer that the op arms.
abbrev pub counter : Node
counter = record {
  State = ℕ;
  Msg = ℕ;
  Timer = ℕ;
  Op = ℕ;
  Response = ℕ;
  initial = 0;
  debug = λ t. t ∷ [];
  on_start = λ s. Effect.cancel_timer 0 (Effect.ret s);
  on_msg = λ s from n. Effect.ret (s + n);
  on_timer = λ s t. Effect.complete_op t (Completion.ok s) (Effect.ret s);
  on_client_op = λ s n token.
      Effect.broadcast n
        (Effect.set_timer token (millis 5) (Effect.ret (s + n, OpOutcome.pending)));
}

abbrev pub decode_add : Value → Option (Function × ℕ)
decode_add (Value.int (pos n)) = some (add, n)
decode_add _ = none

abbrev pub counter_codec : Option (ClientCodec ℕ ℕ)
counter_codec = some (record { decode = decode_add; encode_response = λ f n. Value.int (pos n) })

-- Node 1 is down from 3 ms to 20 ms.
abbrev pub outage : Faults
outage =
    commit (commit scripted (millis 3) (ScriptedAction.crash 1)) (millis 20)
      (ScriptedAction.restart 1)

abbrev pub plan : PlanData
plan = record { nodes = 2; network = none; faults = some outage; seeds = 1; replay = none }

abbrev pub ops : List FrozenOp
ops = frozen_op 0 (Value.int (pos 3)) ∷ frozen_op 1 (Value.int (pos 4)) ∷ frozen_op 0 Value.nil ∷ []

abbrev result : RunResult ℕ
unfolding program
result = run_deterministic counter counter_codec 40 plan none (some ops) 7

abbrev entry : ℕ → ℕ → OpKind → ℕ → Function → Value → OpEntry
entry i at kind p f v = record {
  index = i;
  time = record { nanos = pos at; clock = virtual };
  kind = kind;
  process = p;
  f = f;
  value = v;
}

abbrev pub int : ℕ → Value
int n = Value.int (pos n)

-- The crash ends the op of process 1, and the op that does not decode fails.
abbrev pub counted : TypedRun ℕ
counted = record {
  history =
      entry 0 1_000_000 OpKind.invoke 0 add (int 3)
      ∷ entry 1 1_000_000 OpKind.invoke 1 add (int 4)
      ∷ entry 2 3_000_000 OpKind.info 1 add Value.nil
      ∷ entry 3 6_000_000 OpKind.ok 0 add (int 7)
      ∷ entry 4 7_000_000 OpKind.invoke 0 op_name Value.nil
      ∷ entry 5 7_000_000 OpKind.fail 0 op_name Value.nil
      ∷ [];
  frames =
      (0, 0 ∷ 0 ∷ [])
      ∷ (1_000_000, 3 ∷ 0 ∷ [])
      ∷ (1_000_000, 3 ∷ 4 ∷ [])
      ∷ (1_000_000, 3 ∷ 7 ∷ [])
      ∷ (1_000_000, 7 ∷ 7 ∷ [])
      ∷ (3_000_000, 7 ∷ 7 ∷ [])
      ∷ (6_000_000, 7 ∷ 7 ∷ [])
      ∷ (7_000_000, 7 ∷ 7 ∷ [])
      ∷ (20_000_000, 7 ∷ 7 ∷ [])
      ∷ [];
  events = node_rejoined 20_000_000 1 ∷ [];
  seed = 7;
}

pub runs : run_deterministic counter counter_codec 40 plan none (some ops) 7 ≡ ran counted
unfolding program
runs = refl

run-InOrder_example :
    FramesInOrder 0 counted.frames × Indexed 0 counted.history × InOrder 0 counted.history
run-InOrder_example = run-InOrder counter counter_codec 40 plan none (some ops) 7 counted runs

abbrev loaded : SchedCore ℕ ℕ
unfolding program
loaded =
    schedule_client_op
      (arm_timer (λ t. t ∷ []) (schedule_delivery (init 7 ordered_reliable 2) 0 1 5) 0 3 (millis 2))
      (millis 1) 1 0

loaded-IsTimely : IsTimely loaded
unfolding program
loaded-IsTimely = record {
  due = (omega arith, (omega arith, (omega arith, tt)));
  before_horizon = omega arith;
  indexed = tt;
  in_order = tt;
  last = omega arith;
}

pop-IsTimely_example :
    IsTimely (pop (λ t. t ∷ []) loaded).0 × (loaded.now ≤ (pop (λ t. t ∷ []) loaded).0.now)
pop-IsTimely_example = pop-IsTimely (λ t. t ∷ []) loaded loaded-IsTimely

run-sequential_example : status 0 (some false) counted.history ≡ some false
run-sequential_example =
    run-sequential counter counter_codec 40 plan none (some ops) 7 counted 0 runs

-- A swarm of two nodes that may split and crash.
abbrev swarm_kind_list : List FaultKind
swarm_kind_list = FaultKind.partitions ∷ FaultKind.crash_restart ∷ []

abbrev pub fresh : SchedCore ℕ ℕ
unfolding program
fresh = init 7 ordered_reliable 2

pub fresh-empty : fresh.queue ≡ []
unfolding program
fresh-empty = refl

lower_swarm-undone_example :
    AllUndone (lower_swarm swarm_kind_list Mode.liveness 2 ordered_reliable fresh (new 3)).1.queue
lower_swarm-undone_example =
    lower_swarm-undone swarm_kind_list 2 ordered_reliable fresh (new 3) fresh-empty

fresh-ordered : fresh.model.ordered ≡ true
unfolding program
fresh-ordered = refl

schedule_delivery-IsFifo_example : IsFifo (schedule_delivery fresh 0 1 5)
schedule_delivery-IsFifo_example =
    schedule_delivery-IsFifo fresh 0 1 5 fresh-ordered (empty-IsFifo fresh fresh-empty)

-- Two messages on one link.
abbrev sent : SchedCore ℕ ℕ
unfolding program
sent = schedule_delivery (schedule_delivery fresh 0 1 5) 0 1 6

abbrev message : ℕ → ℕ → Scheduled ℕ ℕ
message seq msg = record { at = 0; seq = seq; kind = EventKind.deliver 0 1 msg }

sent-IsFifo : IsFifo sent
unfolding program
sent-IsFifo =
    schedule_delivery-IsFifo (schedule_delivery fresh 0 1 5) 0 1 6 fresh-ordered
      (schedule_delivery-IsFifo fresh 0 1 5 fresh-ordered (empty-IsFifo fresh fresh-empty))

first_message : take_min sent.queue ≡ some (message 0 5, message 1 6 ∷ [])
unfolding program
first_message = refl

take_min-oldest_example : (0 ≤ 1) × IsFifo (record sent { queue = message 1 6 ∷ [] })
take_min-oldest_example =
    take_min-oldest sent (message 0 5) (message 1 6 ∷ []) (0, 1) (message 1 6) sent-IsFifo
      first_message refl mem-cons_self refl
