-- ===== src/Sim/Driver/Load.antt =====
-- What the driver brings about, paid for by the budget of the nodes.
use propsim.Base.{
  ℕ, zero, suc, ◌+◌, ◌*◌, ◌%◌, ◌≤◌, ◌≡◌, refl, ap, ◌∙◌, inl, inr, Option, none, some, List, [], ◌∷◌,
  ◌++◌, arith, length, length-append, get_elem?, get_or, set, if_intro, Option-cases, ltb,
  replicate,
}
use native.Mathlib.Nat.{suc-mul, le_trans}
use propsim.History.{OpKind, Function, ProcessId}
use propsim.History.Values.{Value}
use propsim.Core.Node.{Node, NodeId, Effect, OpOutcome, OpToken, ClientCodec}
use propsim.Core.Plan.{FrozenOp}
use propsim.Sim.Scheduler.{
  SchedCore, PoppedEvent, open_op, close_op, record_entry, enqueue, schedule_client_op, closed_for,
}
use propsim.Sim.Scheduler.Load.{load, popped_weight, SameLoad, close_op-queue, close_op-node_count}
use propsim.Sim.Ctx.{run_effect}
use propsim.Sim.Ctx.Load.{Budget, Affords, run_effect-load, run_effect-node_count}
use propsim.Sim.Driver.{
  Issue, World, decode_op, op_function, op_target, group_ops, issue_next, pump_one, pump_client_ops,
  dispatch, dispatch_start, dispatch_msg, dispatch_timer, settle, deliver_op, dispatch_client_op,
  handle,
}

-- The ops that wait in the queues of the processes.

unfoldable pub waiting : List (List ℕ) → ℕ
waiting [] = 0
waiting (q ∷ queues) = length q + waiting queues

waiting-push :
    (queues : List (List ℕ)) (p i : ℕ)
    → waiting (set queues p (get_or queues p [] ++ i ∷ [])) ≤ suc (waiting queues)
unfolding waiting
waiting-push [] p i = omega arith
waiting-push (q ∷ queues) zero i = let e = length-append q (i ∷ []) in omega (arith, e)
waiting-push (q ∷ queues) (suc p) i = omega (arith, waiting-push queues p i)

waiting-take :
    (queues : List (List ℕ)) (p i : ℕ) (rest : List ℕ)
    → get_or queues p [] ≡ i ∷ rest
    → waiting queues ≡ suc (waiting (set queues p rest))
unfolding waiting
waiting-take [] p i rest e = cc
waiting-take (q ∷ queues) zero i rest e = let l = ap length e in omega (arith, l)
waiting-take (q ∷ queues) (suc p) i rest e = omega (arith, waiting-take queues p i rest e)

pub group_ops-waiting :
    (n i : ℕ) (ops : List FrozenOp) (queues : List (List ℕ))
    → waiting (group_ops n i ops queues) ≤ waiting queues + length ops
unfolding group_ops
group_ops-waiting n i [] queues = omega arith
group_ops-waiting n i (op ∷ ops) queues =
    let p = op.process % n in
    let queues' = set queues p (get_or queues p [] ++ i ∷ []) in
    omega (arith, waiting-push queues p i, group_ops-waiting n (suc i) ops queues')

pub waiting-replicate : (n : ℕ) → waiting (replicate n []) ≡ 0
unfolding waiting
waiting-replicate zero = refl
waiting-replicate (suc n) = omega (arith, waiting-replicate n)

module _ (N : Node) (codec : Option (ClientCodec N.Op N.Response)) (n : ℕ)
    (budget : Budget N n) where
  open N use {State, Msg, Timer, Op, Response, debug, on_client_op}
  open budget use {weights, credit}

  unfoldable pub credits : List (Option State) → ℕ
  credits [] = 0
  credits (none ∷ slots) = credits slots
  credits (some s ∷ slots) = credit s + credits slots

  credits-set :
      (slots : List (Option State)) (id : ℕ) (s s' : State)
      → get_elem? slots id ≡ some (some s)
      → credits (set slots id (some s')) + credit s ≡ credits slots + credit s'
  unfolding credits
  credits-set [] id s s' e = cc
  credits-set (none ∷ slots) zero s s' e = cc
  credits-set (some x ∷ slots) zero s s' e =
      let same : x ≡ s = cc in let c = ap credit same in omega arith
  credits-set (none ∷ slots) (suc id) s s' e = credits-set slots id s s' e
  credits-set (some x ∷ slots) (suc id) s s' e = omega (arith, credits-set slots id s s' e)

  -- The load of the queue and the credits of the nodes.
  abbrev pub total : World N codec → ℕ
  total w = load weights w.0.queue + credits w.1

  -- A world that a call gives is within the bound, and has as many nodes.
  abbrev pub Costs : ℕ → Option (World N codec) → Type 0
  Costs b none = Unit {0}
  Costs b (some w) = (total w ≤ b) × (w.0.node_count ≡ n)

  module _ (w : World N codec) (count : w.0.node_count ≡ n) where
    dispatch-Costs :
        (id : NodeId) (callback : State → Effect Msg Timer Response State) (extra : ℕ)
        → ((s : State) → Affords n weights credit (credit s + extra) (callback s))
        → Costs (total w + extra) (dispatch N codec w id callback)
    unfolding dispatch
    dispatch-Costs id callback extra h = elim (Option-cases (get_elem? w.1 id)) [
      | inl outside ↦ rw (outside, dispatch) tt
      | inr (slot, e) ↦ elim (Option-cases slot) [
        | inl empty ↦ rw (e, empty, dispatch) (omega arith, count)
        | inr (s, full) ↦
            let paid =
              run_effect-load debug codec id n weights credit (callback s) (credit s + extra) w.0
                (h s) count in
            let s' = (run_effect debug codec id (callback s) w.0).1 in
            let swapped = credits-set w.1 id s s' (e ∙ ap (λ x. some x) full) in
            rw (e, full, dispatch)
              (
                omega (arith, paid, swapped),
                run_effect-node_count debug codec id n weights (callback s) w.0 ∙ count,
              )
      ]
    ]

    open_op-SameLoad :
        (pid : ProcessId) (f : Function) (v : Value) → SameLoad weights w.0 (open_op w.0 pid f v).0
    unfolding open_op record_entry
    open_op-SameLoad pid f v = (refl, refl)

  settle-SameLoad :
      (core : SchedCore Msg Timer) (token : OpToken) (f : Function) (outcome : OpOutcome Response)
      → SameLoad weights core (settle N codec core token f outcome)
  unfolding settle
  settle-SameLoad core token f (OpOutcome.done resp) = (
    close_op-queue weights core token OpKind.ok _,
    close_op-node_count weights core token OpKind.ok _,
  )
  settle-SameLoad core token f OpOutcome.pending = (refl, refl)

  -- An op that is opened and closed at once.
  abbrev at_once : World N codec → ProcessId → Function → Value → OpKind → SchedCore Msg Timer
  at_once w pid f v kind = close_op (open_op w.0 pid f v).0 (open_op w.0 pid f v).1 kind Value.nil

  closed-SameLoad :
      (w : World N codec) (pid : ProcessId) (f : Function) (v : Value) (kind : OpKind)
      → SameLoad weights w.0 (at_once w pid f v kind)
  unfolding open_op record_entry
  closed-SameLoad w pid f v kind =
      (close_op-queue weights _ _ kind Value.nil, close_op-node_count weights _ _ kind Value.nil)

  -- The same load and the same nodes cost no more.
  same-Costs :
      (w : World N codec) (core : SchedCore Msg Timer) (extra : ℕ)
      → w.0.node_count ≡ n
      → SameLoad weights w.0 core
      → Costs (total w + extra) (some (core, w.1))
  same-Costs w core extra count (queue, nodes) =
      let same = ap (load weights) queue in (omega (arith, same), nodes ∙ count)

  deliver_op-Costs :
      (w : World N codec) (target : ℕ) (pid : ProcessId) (op : FrozenOp) (f : Function)
      (typed_op : Op)
      → w.0.node_count ≡ n
      → Costs (total w + weights.of_op) (deliver_op N codec w target pid op f typed_op)
  unfolding deliver_op
  deliver_op-Costs w target pid op f typed_op count = elim (Option-cases (get_elem? w.1 target)) [
    | inl outside ↦ rw (outside, deliver_op) tt
    | inr (slot, e) ↦ elim (Option-cases slot) [
      | inl empty ↦
          rw (e, empty, deliver_op)
            (same-Costs w (at_once w pid f op.op OpKind.info) weights.of_op count
              (closed-SameLoad w pid f op.op OpKind.info))
      | inr (s, full) ↦
          let (start, token) = open_op w.0 pid f op.op in
          let (queue, nodes) = open_op-SameLoad w count pid f op.op in
          let callback = on_client_op s typed_op token in
          let paid =
            run_effect-load debug codec target n weights
              (λ (r : State × OpOutcome Response). credit r.0) callback (credit s + weights.of_op)
              start (budget.on_client_op s typed_op token) (nodes ∙ count) in
          let (core, (s', outcome)) = run_effect debug codec target callback start in
          let (queue', nodes') = settle-SameLoad core token f outcome in
          let swapped = credits-set w.1 target s s' (e ∙ ap (λ x. some x) full) in
          let same = ap (load weights) queue in
          let same' = ap (load weights) queue' in
          rw (e, full, deliver_op)
            (
              omega (arith, paid, swapped, same, same'),
              nodes'
                  ∙ run_effect-node_count debug codec target n weights callback start
                  ∙ nodes
                  ∙ count,
            )
    ]
  ]

  dispatch_client_op-Costs :
      (w : World N codec) (process : NodeId) (op : FrozenOp)
      → w.0.node_count ≡ n
      → Costs (total w + weights.of_op) (dispatch_client_op N codec w process op)
  unfolding dispatch_client_op
  dispatch_client_op-Costs w process op count = elim (Option-cases (decode_op N codec op.op)) [
    | inl missing ↦
        rw (missing, dispatch_client_op)
          (same-Costs w (at_once w process (op_function op.op) op.op OpKind.fail) weights.of_op
            count (closed-SameLoad w process (op_function op.op) op.op OpKind.fail))
    | inr ((f, typed_op), decoded) ↦
        rw (decoded, dispatch_client_op)
          (deliver_op-Costs w (op_target (length w.1) process op.route) process op f typed_op count)
  ]

  -- An event that is handled costs its weight at most.
  pub handle-Costs :
      (ops : List FrozenOp) (w : World N codec) (ev : PoppedEvent Msg Timer)
      → w.0.node_count ≡ n
      → Costs (total w + popped_weight weights ev) (handle N codec ops w ev)
  unfolding handle dispatch_msg dispatch_timer dispatch_start
  handle-Costs ops w (PoppedEvent.deliver from to msg) count =
      dispatch-Costs w count to _ (weights.of_msg msg) (λ s. budget.on_msg s from msg)
  handle-Costs ops w (PoppedEvent.timer node tag) count =
      dispatch-Costs w count node _ (weights.of_tag tag) (λ s. budget.on_timer s tag)
  handle-Costs ops w (PoppedEvent.fault none) count = (omega arith, count)
  handle-Costs ops w (PoppedEvent.fault (some k)) count =
      dispatch-Costs w count k _ weights.of_start budget.on_start
  handle-Costs ops w (PoppedEvent.client_op process index) count =
      elim (Option-cases (get_elem? ops index)) [
        | inl outside ↦ rw (outside, handle) tt
        | inr (op, e) ↦ rw (e, handle) (dispatch_client_op-Costs w process op count)
      ]

  pub start-Costs :
      (w : World N codec) (id : NodeId)
      → w.0.node_count ≡ n
      → Costs (total w + weights.of_start) (dispatch_start N codec w id)
  unfolding dispatch_start
  start-Costs w id count = dispatch-Costs w count id _ weights.of_start budget.on_start

  -- The load, and the ops that wait, each with its weight.
  abbrev pub outlay : Issue Msg Timer → ℕ
  outlay s = load weights s.core.queue + waiting s.per_process * suc weights.of_op

  issue_next-outlay :
      (p : ℕ) (q : List ℕ) (s : Issue Msg Timer)
      → get_or s.per_process p [] ≡ q
      → (outlay (issue_next p q s) ≤ outlay s)
        × ((issue_next p q s).core.node_count ≡ s.core.node_count)
  unfolding issue_next schedule_client_op enqueue load
  issue_next-outlay p [] s e = (omega arith, refl)
  issue_next-outlay p (idx ∷ rest) s e =
      let left = set s.per_process p rest in
      let one_less = ap (λ k. k * suc weights.of_op) (waiting-take s.per_process p idx rest e) in
      (moved (load weights s.core.queue) weights.of_op _ (waiting left) one_less, refl)
    where
      moved :
          (queue w before after : ℕ)
          → before ≡ suc after * suc w
          → suc w + queue + after * suc w ≤ queue + before
      moved queue w before after e' = let more = suc-mul after (suc w) in omega (arith, e', more)

  pub pump-outlay :
      (k : ℕ) (s : Issue Msg Timer)
      → (outlay (pump_client_ops k s) ≤ outlay s)
        × ((pump_client_ops k s).core.node_count ≡ s.core.node_count)
  unfolding pump_client_ops pump_one
  pump-outlay zero s = (omega arith, refl)
  pump-outlay (suc k) s =
      let t = pump_client_ops k s in
      let (less, same) = pump-outlay k s in
      let (less', same') = issue_next-outlay k (get_or t.per_process k []) t refl in
      if_intro
        (λ (u : Issue Msg Timer). (outlay u ≤ outlay s) × (u.core.node_count ≡ s.core.node_count))
        (ltb (closed_for t.core.history k) (get_or t.scheduled k 0)) t
        (issue_next k (get_or t.per_process k []) t) (λ _. (less, same))
        (λ _. (le_trans less' less, same' ∙ same))
