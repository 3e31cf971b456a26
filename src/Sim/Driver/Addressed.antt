-- ===== src/Sim/Driver/Addressed.antt =====
-- Handling an event that is addressed to a node or an op that there is.
use propsim.Base.{
  ℕ, ◌<◌, ◌≤◌, ◌≡◌, refl, ◌∙◌, inl, inr, Option, none, some, List, [], ◌∷◌, arith, All, All-set,
  get_elem?-All, length, length-set, get_elem?, set, Option-cases, subst,
}
use native.Mathlib.Nat.{mod-lt}
use propsim.History.{OpKind, Function, ProcessId}
use propsim.History.Values.{Value}
use propsim.Core.Node.{Node, NodeId, Effect, OpOutcome, OpToken, ClientCodec}
use propsim.Core.Plan.{FrozenOp}
use propsim.Sim.Scheduler.{SchedCore, PoppedEvent, open_op, close_op}
use propsim.Sim.Scheduler.Addressed.{
  IsAddressed, IsPoppedIn, open_op-IsAddressed, close_op-IsAddressed,
}
use propsim.Sim.Ctx.{run_effect}
use propsim.Sim.Ctx.Addressed.{Contract, StaysIn, run_effect-IsAddressed}
use propsim.Sim.Driver.{
  World, op_function, op_target, decode_op, dispatch, dispatch_start, dispatch_msg, dispatch_timer,
  settle, deliver_op, dispatch_client_op, handle,
}

op_target_lt :
    (n : ℕ) (process : NodeId) (route : Option NodeId) → 1 ≤ n → op_target n process route < n
unfolding op_target
op_target_lt n process none h = mod-lt process (omega arith)
op_target_lt n process (some node) h = mod-lt node (omega arith)

module _ (N : Node) (codec : Option (ClientCodec N.Op N.Response)) (n : ℕ) (some_node : 1 ≤ n)
    (contract : Contract N n) (ops : ℕ) where
  open N use {State, Msg, Timer, Op, Response, debug, on_client_op}

  abbrev pub Addressed : SchedCore Msg Timer → Type 0
  Addressed c = IsAddressed n ops contract.IsMsg contract.IsTag c

  abbrev pub IsSlot : Option State → Type 0
  IsSlot none = Unit {0}
  IsSlot (some s) = contract.IsState s

  pub record IsSafe (w : World N codec) : Type 0 where
    pub core : Addressed w.0
    pub slots : length w.1 ≡ n
    pub states : All IsSlot w.1

  -- The world that a call gives, in place of an index out of bounds.
  abbrev pub Succeeds : Option (World N codec) → Type 0
  Succeeds o = (w : World N codec) × (o ≡ some w) × IsSafe w

  put_back :
      (core : SchedCore Msg Timer) (nodes : List (Option State)) (id : NodeId) (s : State)
      → Addressed core
      → contract.IsState s
      → length nodes ≡ n
      → All IsSlot nodes
      → IsSafe (core, set nodes id (some s))
  put_back core nodes id s i k l h = record {
    core = i;
    slots = length-set nodes id (some s) ∙ l;
    states = All-set IsSlot nodes id (some s) k h;
  }

  module _ (w : World N codec) (id : NodeId) (callback : State → Effect Msg Timer Response State)
      (l : id < n)
      (stays : (s : State)
        → contract.IsState s
        → StaysIn n contract.IsMsg contract.IsTag contract.IsState (callback s))
      (i : IsSafe w) where
    dispatch-slot :
        (slot : Option State)
        → get_elem? w.1 id ≡ some slot
        → IsSlot slot
        → Succeeds (dispatch N codec w id callback)
    unfolding dispatch
    dispatch-slot none e k = (w, rw (e, dispatch) refl, i)
    dispatch-slot (some s) e k =
        let (left, ended) =
          run_effect-IsAddressed debug codec id n ops l contract.IsMsg contract.IsTag
            contract.IsState (callback s) w.0 (stays s k) i.core in
        (_, rw (e, dispatch) refl, put_back _ w.1 id _ left ended i.slots i.states)

    dispatch-Succeeds : Succeeds (dispatch N codec w id callback)
    dispatch-Succeeds =
        let (slot, e, k) = get_elem?-All IsSlot w.1 id (let s = i.slots in omega arith) i.states in
        dispatch-slot slot e k

  settle-Addressed :
      (core : SchedCore Msg Timer) (token : OpToken) (f : Function) (outcome : OpOutcome Response)
      → Addressed core
      → Addressed (settle N codec core token f outcome)
  unfolding settle
  settle-Addressed core token f (OpOutcome.done resp) i =
      close_op-IsAddressed n ops contract.IsMsg contract.IsTag core token OpKind.ok _ i
  settle-Addressed core token f OpOutcome.pending i = i

  module _ (w : World N codec) (target : ℕ) (pid : ProcessId) (op : FrozenOp) (f : Function)
      (typed_op : Op) (l : target < n) (i : IsSafe w) where
    opened : Addressed (open_op w.0 pid f op.op).0
    opened = open_op-IsAddressed n ops contract.IsMsg contract.IsTag w.0 pid f op.op i.core

    deliver_op-slot :
        (slot : Option State)
        → get_elem? w.1 target ≡ some slot
        → IsSlot slot
        → Succeeds (deliver_op N codec w target pid op f typed_op)
    unfolding deliver_op
    deliver_op-slot none e k =
        let (start, token) = open_op w.0 pid f op.op in
        let closed : Addressed (close_op start token OpKind.info Value.nil) =
          close_op-IsAddressed n ops contract.IsMsg contract.IsTag start token OpKind.info Value.nil
            opened in
        (
          (close_op start token OpKind.info Value.nil, w.1),
          rw (e, deliver_op) refl,
          record { core = closed; slots = i.slots; states = i.states },
        )
    deliver_op-slot (some s) e k =
        let token = (open_op w.0 pid f op.op).1 in
        let start = (open_op w.0 pid f op.op).0 in
        let callback = on_client_op s typed_op token in
        let (core, (s', outcome)) = run_effect debug codec target callback start in
        let (left, ended) =
          run_effect-IsAddressed debug codec target n ops l contract.IsMsg contract.IsTag
            (λ (r : State × OpOutcome Response). contract.IsState r.0) callback start
            (contract.on_client_op s typed_op token k) opened in
        let settled = settle-Addressed core token f outcome left in
        (
          (settle N codec core token f outcome, set w.1 target (some s')),
          rw (e, deliver_op) refl,
          put_back (settle N codec core token f outcome) w.1 target s' settled ended i.slots
              i.states,
        )

    deliver_op-Succeeds : Succeeds (deliver_op N codec w target pid op f typed_op)
    deliver_op-Succeeds =
        let (slot, e, k) =
          get_elem?-All IsSlot w.1 target (let s = i.slots in omega arith) i.states in
        deliver_op-slot slot e k

  dispatch_client_op-Succeeds :
      (w : World N codec) (process : NodeId) (op : FrozenOp)
      → IsSafe w
      → Succeeds (dispatch_client_op N codec w process op)
  unfolding dispatch_client_op
  dispatch_client_op-Succeeds w process op i = elim (Option-cases (decode_op N codec op.op)) [
    | inl missing ↦
        let (start, token) = open_op w.0 process (op_function op.op) op.op in
        let opened =
          open_op-IsAddressed n ops contract.IsMsg contract.IsTag w.0 process (op_function op.op)
            op.op i.core in
        let closed : Addressed (close_op start token OpKind.fail Value.nil) =
          close_op-IsAddressed n ops contract.IsMsg contract.IsTag start token OpKind.fail Value.nil
            opened in
        (
          (close_op start token OpKind.fail Value.nil, w.1),
          rw (missing, dispatch_client_op) refl,
          record { core = closed; slots = i.slots; states = i.states },
        )
    | inr ((f, typed_op), decoded) ↦
        let target = op_target (length w.1) process op.route in
        let below : target < n =
          subst (λ k. target < k) i.slots
            (op_target_lt (length w.1) process op.route (let s = i.slots in omega arith)) in
        let (w', e, safe) = deliver_op-Succeeds w target process op f typed_op below i in
        (w', rw (decoded, dispatch_client_op) e, safe)
  ]

  -- An event that is handed over, between the nodes or for one of the ops, is handled.
  pub handle-Succeeds :
      (frozen : List FrozenOp) (w : World N codec) (ev : PoppedEvent Msg Timer)
      → ops ≡ length frozen
      → IsPoppedIn n ops contract.IsMsg contract.IsTag (some ev)
      → IsSafe w
      → Succeeds (handle N codec frozen w ev)
  unfolding handle dispatch_msg dispatch_timer dispatch_start
  handle-Succeeds frozen w (PoppedEvent.deliver from to msg) len h i =
      dispatch-Succeeds w to _ h.1 (λ s k. contract.on_msg s from msg k h.0 h.2) i
  handle-Succeeds frozen w (PoppedEvent.timer node tag) len h i =
      dispatch-Succeeds w node _ h.0 (λ s k. contract.on_timer s tag k h.1) i
  handle-Succeeds frozen w (PoppedEvent.fault none) len h i = (w, refl, i)
  handle-Succeeds frozen w (PoppedEvent.fault (some k)) len h i =
      dispatch-Succeeds w k _ h contract.on_start i
  handle-Succeeds frozen w (PoppedEvent.client_op process index) len h i =
      let (op, e, _) =
        get_elem?-All (λ (op : FrozenOp). Unit {0}) frozen index (omega arith) (all frozen) in
      let (w', e', safe) = dispatch_client_op-Succeeds w process op i in
      (w', rw (e, handle) e', safe)
    where
      all : (xs : List FrozenOp) → All (λ (op : FrozenOp). Unit {0}) xs
      all [] = tt
      all (x ∷ xs) = (tt, all xs)

  pub start-Succeeds :
      (w : World N codec) (id : NodeId) → id < n → IsSafe w → Succeeds (dispatch_start N codec w id)
  unfolding dispatch_start
  start-Succeeds w id l i = dispatch-Succeeds w id _ l contract.on_start i
