-- ===== src/Sim/Ctx/Load.antt =====
-- A budget for the callbacks of a node, and the load that a callback leaves which keeps to it.
use propsim.Base.{
  ℕ, zero, suc, ◌+◌, ◌-◌, ◌*◌, ◌≤◌, ◌≡◌, refl, ◌∙◌, Option, List, [], ◌∷◌, ◌++◌, Text, arith,
  length, length-append, if_intro, ◌==◌, subst,
}
use native.Mathlib.Nat.{mul-le-mul_right, add-le-add, le_trans, le_refl}
use propsim.Core.Node.{Node, NodeId, Duration, Effect, Completion, OpToken, OpOutcome, ClientCodec}
use propsim.History.{OpKind}
use propsim.History.Values.{Value}
use propsim.Sim.Rng.{next}
use propsim.Sim.Scheduler.{
  SchedCore, schedule_delivery, peers, others_below, arm_timer, cancel_timer, bump_gen, enqueue,
}
use propsim.Sim.Scheduler.Sending.{schedule_delivery-rule}
use propsim.Sim.Scheduler.Load.{
  Weights, load, schedule_delivery-load, arm_timer-load, close_op-queue, close_op-node_count,
}
use propsim.Sim.Ctx.{send_each, complete_op, run_effect}

module _ {M T R A : Type 0} (n : ℕ) (weights : Weights M T) (credit : A → ℕ) where
  -- Whatever the context answers, the callback can pay for what it does out of `b`: for each message
  -- two copies with their weights, to each node if it is a broadcast, for each timer its weight, and
  -- at last the credit of what it ends with.
  unfoldable pub Affords : ℕ → Effect M T R A → Type 0
  Affords b (Effect.ret a) = credit a ≤ b
  Affords b (Effect.send to msg k) =
      (2 * suc (weights.of_msg msg) ≤ b) × Affords (b - 2 * suc (weights.of_msg msg)) k
  Affords b (Effect.broadcast msg k) =
      (n * (2 * suc (weights.of_msg msg)) ≤ b) × Affords (b - n * (2 * suc (weights.of_msg msg))) k
  Affords b (Effect.set_timer tag after k) =
      (suc (weights.of_tag tag) ≤ b) × Affords (b - suc (weights.of_tag tag)) k
  Affords b (Effect.cancel_timer tag k) = Affords b k
  Affords b (Effect.now k) = (now : Duration) → Affords b (k now)
  Affords b (Effect.next_u64 k) = (drawn : ℕ) → Affords b (k drawn)
  Affords b (Effect.me k) = (id : NodeId) → Affords b (k id)
  Affords b (Effect.complete_op token completion k) = Affords b k

-- The budget of a node in a cluster of `n`: a credit for its states and weights for what it sends,
-- such that each callback affords its calls and its new state out of the credit of its state and the
-- weight of the event that it handles.
pub record Budget (N : Node) (n : ℕ) : Type 0 where
  pub weights : Weights N.Msg N.Timer
  pub credit : N.State → ℕ
  pub on_start :
      (s : N.State) → Affords n weights credit (credit s + weights.of_start) (N.on_start s)
  pub on_msg :
      (s : N.State) (from : NodeId) (msg : N.Msg)
      → Affords n weights credit (credit s + weights.of_msg msg) (N.on_msg s from msg)
  pub on_timer :
      (s : N.State) (tag : N.Timer)
      → Affords n weights credit (credit s + weights.of_tag tag) (N.on_timer s tag)
  pub on_client_op :
      (s : N.State) (op : N.Op) (token : OpToken)
      → Affords n weights
          (λ (r : N.State × OpOutcome N.Response). credit r.0)
          (credit s + weights.of_op)
          (N.on_client_op s op token)

length-others_below : (k : ℕ) (me : NodeId) → length (others_below k me) ≤ k
unfolding others_below
length-others_below zero me = omega arith
length-others_below (suc k) me =
    let split = length-append (others_below k me) in
    if_intro (λ (xs : List NodeId). length (others_below k me ++ xs) ≤ suc k) (k == me) [] (k ∷ [])
      (λ _. omega (arith, split [], length-others_below k me))
      (λ _. omega (arith, split (k ∷ []), length-others_below k me))

-- What was paid out of a budget is on the load.
trade :
    (before after b paid last : ℕ)
    → after ≤ before + paid
    → paid ≤ b
    → last ≤ after + (b - paid)
    → last ≤ before + b
trade before after b paid last h k l = omega (arith, h, k, l)

module _ {M T Op R : Type 0} (debug : T → Text) (codec : Option (ClientCodec Op R)) (me n : ℕ)
    (weights : Weights M T) where
  schedule_delivery-node_count :
      (c : SchedCore M T) (from to : NodeId) (msg : M)
      → (schedule_delivery c from to msg).node_count ≡ c.node_count
  unfolding enqueue
  schedule_delivery-node_count c from to msg =
      schedule_delivery-rule (λ d. d.node_count ≡ c.node_count) (λ d rng e. e) (λ d links e. e)
        (λ d at from' to' msg' e. e) c from to msg refl

  send_each-node_count :
      (c : SchedCore M T) (tos : List NodeId) (msg : M)
      → (send_each c me tos msg).node_count ≡ c.node_count
  unfolding send_each
  send_each-node_count c [] msg = refl
  send_each-node_count c (to ∷ rest) msg =
      send_each-node_count (schedule_delivery c me to msg) rest msg
      ∙ schedule_delivery-node_count c me to msg

  send_each-load :
      (c : SchedCore M T) (tos : List NodeId) (msg : M)
      → load weights (send_each c me tos msg).queue
        ≤ load weights c.queue + length tos * (2 * suc (weights.of_msg msg))
  unfolding send_each
  send_each-load c [] msg = omega arith
  send_each-load c (to ∷ rest) msg =
      let one = schedule_delivery-load weights c me to msg in
      let others = send_each-load (schedule_delivery c me to msg) rest msg in
      grind (arith, one, others)

  arm_timer-node_count :
      (c : SchedCore M T) (tag : T) (after : Duration)
      → (arm_timer debug c me tag after).node_count ≡ c.node_count
  unfolding arm_timer bump_gen enqueue
  arm_timer-node_count c tag after = refl

  cancel_timer-queue : (c : SchedCore M T) (tag : T) → (cancel_timer debug c me tag).queue ≡ c.queue
  unfolding cancel_timer bump_gen
  cancel_timer-queue c tag = refl

  cancel_timer-node_count :
      (c : SchedCore M T) (tag : T) → (cancel_timer debug c me tag).node_count ≡ c.node_count
  unfolding cancel_timer bump_gen
  cancel_timer-node_count c tag = refl

  complete_op-queue :
      (c : SchedCore M T) (token : OpToken) (completion : Completion R)
      → (complete_op debug codec me c token completion).queue ≡ c.queue
  unfolding complete_op
  complete_op-queue c token (Completion.ok resp) = close_op-queue weights c token OpKind.ok _
  complete_op-queue c token Completion.fail = close_op-queue weights c token OpKind.fail Value.nil
  complete_op-queue c token Completion.info = close_op-queue weights c token OpKind.info Value.nil

  complete_op-node_count :
      (c : SchedCore M T) (token : OpToken) (completion : Completion R)
      → (complete_op debug codec me c token completion).node_count ≡ c.node_count
  unfolding complete_op
  complete_op-node_count c token (Completion.ok resp) =
      close_op-node_count weights c token OpKind.ok _
  complete_op-node_count c token Completion.fail =
      close_op-node_count weights c token OpKind.fail Value.nil
  complete_op-node_count c token Completion.info =
      close_op-node_count weights c token OpKind.info Value.nil

  broadcast-load :
      (c : SchedCore M T) (msg : M)
      → c.node_count ≡ n
      → load weights (send_each c me (peers c me) msg).queue
        ≤ load weights c.queue + n * (2 * suc (weights.of_msg msg))
  unfolding peers
  broadcast-load c msg e =
      let few : length (others_below c.node_count me) ≤ n =
        omega (arith, length-others_below c.node_count me) in
      let paid = mul-le-mul_right (2 * suc (weights.of_msg msg)) few in
      le_trans (send_each-load c (others_below c.node_count me) msg)
        (add-le-add (le_refl (load weights c.queue)) paid)

  -- What a callback leaves in the queue, and the credit of what it ends with, are paid for.
  pub run_effect-load :
      {A : Type 0} (credit : A → ℕ) (e : Effect M T R A) (b : ℕ) (c : SchedCore M T)
      → Affords n weights credit b e
      → c.node_count ≡ n
      → load weights (run_effect debug codec me e c).0.queue
          + credit (run_effect debug codec me e c).1
        ≤ load weights c.queue + b
  unfolding run_effect Affords
  run_effect-load credit (Effect.ret a) b c h e = omega (arith, h)
  run_effect-load credit (Effect.send to msg k) b c h e =
      let rest =
        run_effect-load credit k (b - 2 * suc (weights.of_msg msg)) (schedule_delivery c me to msg)
          h.1 (schedule_delivery-node_count c me to msg ∙ e) in
      omega (arith, h.0, rest, schedule_delivery-load weights c me to msg)
  run_effect-load credit (Effect.broadcast msg k) b c h e =
      let paid = n * (2 * suc (weights.of_msg msg)) in
      let rest =
        run_effect-load credit k (b - n * (2 * suc (weights.of_msg msg)))
          (send_each c me (peers c me) msg) h.1 (send_each-node_count c (peers c me) msg ∙ e) in
      trade (load weights c.queue) _ b (n * (2 * suc (weights.of_msg msg))) _
        (broadcast-load c msg e) h.0 rest
  run_effect-load credit (Effect.set_timer tag after k) b c h e =
      let rest =
        run_effect-load credit k (b - suc (weights.of_tag tag)) (arm_timer debug c me tag after) h.1
          (arm_timer-node_count c tag after ∙ e) in
      omega (arith, h.0, rest, arm_timer-load weights debug c me tag after)
  run_effect-load credit (Effect.cancel_timer tag k) b c h e =
      subst
        (λ q.
          load weights (run_effect debug codec me k (cancel_timer debug c me tag)).0.queue
            + credit (run_effect debug codec me k (cancel_timer debug c me tag)).1
          ≤ load weights q + b)
        (cancel_timer-queue c tag)
        (run_effect-load credit k b (cancel_timer debug c me tag) h
          (cancel_timer-node_count c tag ∙ e))
  run_effect-load credit (Effect.now k) b c h e = run_effect-load credit (k c.now) b c (h c.now) e
  run_effect-load credit (Effect.next_u64 k) b c h e =
      run_effect-load credit (k (next c.rng).0) b (record c { rng = (next c.rng).1 })
        (h (next c.rng).0) e
  run_effect-load credit (Effect.me k) b c h e = run_effect-load credit (k me) b c (h me) e
  run_effect-load credit (Effect.complete_op token completion k) b c h e =
      subst
        (λ q.
          load weights
              (run_effect debug codec me k (complete_op debug codec me c token completion)).0.queue
            + credit (run_effect debug codec me k (complete_op debug codec me c token completion)).1
          ≤ load weights q + b)
        (complete_op-queue c token completion)
        (run_effect-load credit k b (complete_op debug codec me c token completion) h
          (complete_op-node_count c token completion ∙ e))

  pub run_effect-node_count :
      {A : Type 0} (e : Effect M T R A) (c : SchedCore M T)
      → (run_effect debug codec me e c).0.node_count ≡ c.node_count
  unfolding run_effect
  run_effect-node_count (Effect.ret a) c = refl
  run_effect-node_count (Effect.send to msg k) c =
      run_effect-node_count k (schedule_delivery c me to msg)
      ∙ schedule_delivery-node_count c me to msg
  run_effect-node_count (Effect.broadcast msg k) c =
      run_effect-node_count k (send_each c me (peers c me) msg)
      ∙ send_each-node_count c (peers c me) msg
  run_effect-node_count (Effect.set_timer tag after k) c =
      run_effect-node_count k (arm_timer debug c me tag after) ∙ arm_timer-node_count c tag after
  run_effect-node_count (Effect.cancel_timer tag k) c =
      run_effect-node_count k (cancel_timer debug c me tag) ∙ cancel_timer-node_count c tag
  run_effect-node_count (Effect.now k) c = run_effect-node_count (k c.now) c
  run_effect-node_count (Effect.next_u64 k) c =
      run_effect-node_count (k (next c.rng).0) (record c { rng = (next c.rng).1 })
  run_effect-node_count (Effect.me k) c = run_effect-node_count (k me) c
  run_effect-node_count (Effect.complete_op token completion k) c =
      run_effect-node_count k (complete_op debug codec me c token completion)
      ∙ complete_op-node_count c token completion
