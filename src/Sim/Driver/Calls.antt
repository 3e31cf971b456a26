-- ===== src/Sim/Driver/Calls.antt =====
-- What the handling of one event does to the scheduler: calls of the scheduler alone, or, for a client
-- op, the opening of one op of its process and then calls of the scheduler.
use propsim.Base.{ℕ, refl, inl, inr, Option, none, some, List, get_elem?, Option-cases, length}
use propsim.History.{OpKind, Function, ProcessId}
use propsim.History.Values.{Value}
use propsim.Core.Node.{Node, NodeId, OpToken, Effect, OpOutcome, ClientCodec}
use propsim.Core.Plan.{FrozenOp}
use propsim.Sim.Scheduler.{SchedCore, PoppedEvent, open_op}
use propsim.Sim.Scheduler.Calls.{Calls, close, here, next, Calls-trans}
use propsim.Sim.Ctx.Calls.{run_effect-Calls}
use propsim.Sim.Driver.{
  World, dispatch, dispatch_start, dispatch_msg, dispatch_timer, decode_op, settle, op_target,
  deliver_op, dispatch_client_op, op_function, handle,
}

-- One op of process `p` is opened, and then calls of the scheduler follow.

pub record Opened {M T : Type 0} (debug : T → List ℕ) (p : ProcessId) (c d : SchedCore M T)
    : Type 0 where
  pub f : Function
  pub v : Value
  pub calls : Calls debug (open_op c p f v).0 d

module _ (N : Node) (codec : Option (ClientCodec N.Op N.Response)) where
  open N use {State, Msg, Timer, Op, Response, on_start, on_msg, on_timer, on_client_op, debug}

  -- The relation holds between the old scheduler and the new one, unless an index is out of bounds.
  abbrev pub Lands : (SchedCore Msg Timer → Type 0) → Option (World N codec) → Type 0
  Lands R none = Unit
  Lands R (some (core, nodes)) = R core

  dispatch-Calls :
      (core : SchedCore Msg Timer) (nodes : List (Option State)) (id : NodeId)
      (callback : State → Effect Msg Timer Response State)
      → Lands (Calls debug core) (dispatch N codec (core, nodes) id callback)
  unfolding dispatch
  dispatch-Calls core nodes id callback = elim (Option-cases (get_elem? nodes id)) [
    | inl out ↦ rw (out, dispatch) tt
    | inr (none, empty) ↦ rw (empty, dispatch) here
    | inr (some node, full) ↦
        rw (full, dispatch) (run_effect-Calls debug codec id (callback node) core)
  ]

  settle-Calls :
      (core : SchedCore Msg Timer) (token : OpToken) (f : Function) (o : OpOutcome Response)
      → Calls debug core (settle N codec core token f o)
  unfolding settle
  settle-Calls core token f (OpOutcome.done resp) = next here (close token OpKind.ok _ refl)
  settle-Calls core token f OpOutcome.pending = here

  deliver_op-Opened :
      (core : SchedCore Msg Timer) (nodes : List (Option State)) (target : ℕ) (pid : ProcessId)
      (op : FrozenOp) (f : Function) (typed_op : Op)
      → Lands (Opened debug pid core) (deliver_op N codec (core, nodes) target pid op f typed_op)
  unfolding deliver_op
  deliver_op-Opened core nodes target pid op f typed_op =
      let (opened, token) = open_op core pid f op.op in
      elim (Option-cases (get_elem? nodes target)) [
        | inl out ↦ rw (out, deliver_op) tt
        | inr (none, empty) ↦
            rw (empty, deliver_op)
              (record {
                f = f;
                v = op.op;
                calls = next here (close token OpKind.info Value.nil refl);
              })
        | inr (some node, full) ↦
            rw (full, deliver_op)
              (record {
                f = f;
                v = op.op;
                calls =
                    Calls-trans
                      (run_effect-Calls debug codec target (on_client_op node typed_op token)
                        opened)
                      (settle-Calls _ token f _);
              })
      ]

  dispatch_client_op-Opened :
      (core : SchedCore Msg Timer) (nodes : List (Option State)) (process : NodeId) (op : FrozenOp)
      → Lands (Opened debug process core) (dispatch_client_op N codec (core, nodes) process op)
  unfolding dispatch_client_op
  dispatch_client_op-Opened core nodes process op = elim (Option-cases (decode_op N codec op.op)) [
    | inl undecoded ↦
        rw (undecoded, dispatch_client_op)
          (record {
            f = op_function op.op;
            v = op.op;
            calls = next here (
                close (open_op core process (op_function op.op) op.op).1 OpKind.fail Value.nil
                  refl);
          })
    | inr ((f, typed_op), decoded) ↦
        rw (decoded, dispatch_client_op)
          (deliver_op-Opened core nodes (op_target (length nodes) process op.route) process op f
            typed_op)
  ]

  -- What one event may do to the scheduler.
  abbrev pub Handled : PoppedEvent Msg Timer → SchedCore Msg Timer → SchedCore Msg Timer → Type 0
  Handled (PoppedEvent.client_op process index) c d = Opened debug process c d
  Handled _ c d = Calls debug c d

  pub handle-Handled :
      (ops : List FrozenOp) (core : SchedCore Msg Timer) (nodes : List (Option State))
      (ev : PoppedEvent Msg Timer)
      → Lands (Handled ev core) (handle N codec ops (core, nodes) ev)
  unfolding handle dispatch_msg dispatch_timer dispatch_start
  handle-Handled ops core nodes (PoppedEvent.deliver from to msg) =
      dispatch-Calls core nodes to (λ node. on_msg node from msg)
  handle-Handled ops core nodes (PoppedEvent.timer node tag) =
      dispatch-Calls core nodes node (λ s. on_timer s tag)
  handle-Handled ops core nodes (PoppedEvent.client_op process index) =
      elim (Option-cases (get_elem? ops index)) [
        | inl out ↦ rw (out, handle) tt
        | inr (op, at) ↦ rw (at, handle) (dispatch_client_op-Opened core nodes process op)
      ]
  handle-Handled ops core nodes (PoppedEvent.fault none) = here
  handle-Handled ops core nodes (PoppedEvent.fault (some n)) = dispatch-Calls core nodes n on_start

  pub dispatch_start-Calls :
      (core : SchedCore Msg Timer) (nodes : List (Option State)) (id : NodeId)
      → Lands (Calls debug core) (dispatch_start N codec (core, nodes) id)
  unfolding dispatch_start
  dispatch_start-Calls core nodes id = dispatch-Calls core nodes id on_start
