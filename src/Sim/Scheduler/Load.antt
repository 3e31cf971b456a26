-- ===== src/Sim/Scheduler/Load.antt =====
-- The load of a queue: what the handling of its events may bring about, by weights that a protocol
-- gives its messages and its timers.
use propsim.Base.{
  ℕ, suc, ◌+◌, ◌*◌, ◌≤◌, ◌≡◌, refl, ap, ◌∙◌, subst, inl, inr, not, ◌&&◌, Option, none, some, List,
  [], ◌∷◌, Text, arith, if_intro, Option-cases,
}
use propsim.Base.Maps.{find, contains}
use propsim.Core.Node.{NodeId, OpToken, Duration}
use propsim.History.{OpKind}
use propsim.History.Values.{Value}
use propsim.Sim.Rng.{chance}
use propsim.Sim.Scheduler.{
  SchedCore, Scheduled, EventKind, FaultAction, PoppedEvent, earlier, keep_min, take_min, enqueue,
  connected, sample_delay, order_link, enqueue_copies, schedule_delivery, arm_timer, bump_gen,
  close_op, close_all, record_entry, apply_fault, fire, pop, timer_is_current,
}
use propsim.Sim.Scheduler.Queue.{Chosen, take_min-Chosen}
use propsim.Sim.Scheduler.Rule.{pop-Rule, advanced}

pub record Weights (M T : Type 0) : Type 0 where
  pub of_msg : M → ℕ
  pub of_tag : T → ℕ
  pub of_op : ℕ
  pub of_start : ℕ

module _ {M T : Type 0} (weights : Weights M T) where
  abbrev pub weight : EventKind M T → ℕ
  weight (EventKind.deliver from to msg) = weights.of_msg msg
  weight (EventKind.timer node tag gen) = weights.of_tag tag
  weight (EventKind.client_op process index) = weights.of_op
  weight (EventKind.fault action) = weights.of_start

  abbrev pub popped_weight : PoppedEvent M T → ℕ
  popped_weight (PoppedEvent.deliver from to msg) = weights.of_msg msg
  popped_weight (PoppedEvent.timer node tag) = weights.of_tag tag
  popped_weight (PoppedEvent.client_op process index) = weights.of_op
  popped_weight (PoppedEvent.fault rejoined) = weights.of_start

  -- One for each event, and its weight.
  unfoldable pub load : List (Scheduled M T) → ℕ
  load [] = 0
  load (e ∷ q) = suc (weight e.kind) + load q

  abbrev Split : List (Scheduled M T) → Option (Scheduled M T × List (Scheduled M T)) → Type 0
  Split q none = Unit {0}
  Split q (some (ev, rest)) = load q ≡ suc (weight ev.kind) + load rest

  keep_min-Split :
      (x : Scheduled M T) (q : List (Scheduled M T))
      (o : Option (Scheduled M T × List (Scheduled M T)))
      → (o ≡ none → q ≡ [])
      → Split q o
      → Split (x ∷ q) (keep_min x o)
  unfolding keep_min load
  keep_min-Split x q none n h = rw (n refl) refl
  keep_min-Split x q (some (y, rest)) n h =
      if_intro (Split (x ∷ q)) (earlier y x) _ _ (λ _. omega arith) (λ _. omega arith)

  take_min-none : (q : List (Scheduled M T)) → take_min q ≡ none → q ≡ []
  take_min-none q e = subst (Chosen q) e (take_min-Chosen q)

  take_min-Split : (q : List (Scheduled M T)) → Split q (take_min q)
  unfolding take_min
  take_min-Split [] = tt
  take_min-Split (x ∷ q) = keep_min-Split x q (take_min q) (take_min-none q) (take_min-Split q)

  -- The copies of a message.
  enqueue_copies-load :
      (c : SchedCore M T) (from to : NodeId) (msg : M) (at : Duration)
      → load (enqueue_copies c from to msg at).queue ≤ load c.queue + 2 * suc (weights.of_msg msg)
  unfolding enqueue_copies enqueue load
  enqueue_copies-load c from to msg at =
      if_intro (λ (d : SchedCore M T). load d.queue ≤ load c.queue + 2 * suc (weights.of_msg msg))
        (chance c.rng c.model.duplicate).0 _ _ (λ _. omega arith) (λ _. omega arith)

  order_link-queue :
      (c : SchedCore M T) (from to : NodeId) (at : Duration)
      → (order_link c from to at).0.queue ≡ c.queue
  unfolding order_link
  order_link-queue c from to at =
      if_intro (λ (p : SchedCore M T × Duration). p.0.queue ≡ c.queue) c.model.ordered _ _
        (λ _. refl) (λ _. refl)

  -- A message that is sent loads the queue with two copies at most.
  pub schedule_delivery-load :
      (c : SchedCore M T) (from to : NodeId) (msg : M)
      → load (schedule_delivery c from to msg).queue ≤ load c.queue + 2 * suc (weights.of_msg msg)
  unfolding schedule_delivery
  schedule_delivery-load c from to msg =
      if_intro IsLight (not (connected c from to)) c _ (λ _. omega arith)
        λ _.
          let (lost, rng) = chance c.rng c.model.loss in
          let d = record c { rng = rng } in
          if_intro IsLight lost d _ (λ _. omega arith)
            λ _.
              let (base, rng') = sample_delay d in
              let (e, at) = order_link (record d { rng = rng' }) from to (d.now + base) in
              let same =
                ap load (order_link-queue (record d { rng = rng' }) from to (d.now + base)) in
              omega (arith, same, enqueue_copies-load e from to msg at)
    where
      IsLight : SchedCore M T → Type 0
      IsLight d = load d.queue ≤ load c.queue + 2 * suc (weights.of_msg msg)

  pub arm_timer-load :
      (debug : T → Text) (c : SchedCore M T) (node : NodeId) (tag : T) (after : Duration)
      → load (arm_timer debug c node tag after).queue ≡ load c.queue + suc (weights.of_tag tag)
  unfolding arm_timer enqueue bump_gen load
  arm_timer-load debug c node tag after = omega arith

  pub close_op-queue :
      (c : SchedCore M T) (token : OpToken) (kind : OpKind) (v : Value)
      → (close_op c token kind v).queue ≡ c.queue
  unfolding close_op record_entry
  close_op-queue c token kind v = elim (Option-cases (find token c.pending_ops)) [
    | inl missing ↦ rw (missing, close_op) refl
    | inr (p, found) ↦ rw (found, close_op) refl
  ]

  pub close_op-node_count :
      (c : SchedCore M T) (token : OpToken) (kind : OpKind) (v : Value)
      → (close_op c token kind v).node_count ≡ c.node_count
  unfolding close_op record_entry
  close_op-node_count c token kind v = elim (Option-cases (find token c.pending_ops)) [
    | inl missing ↦ rw (missing, close_op) refl
    | inr (p, found) ↦ rw (found, close_op) refl
  ]

  -- The same events, and the same number of nodes.
  abbrev pub SameLoad : SchedCore M T → SchedCore M T → Type 0
  SameLoad c d = (d.queue ≡ c.queue) × (d.node_count ≡ c.node_count)

  close_all-SameLoad : (c : SchedCore M T) (ks : List OpToken) → SameLoad c (close_all c ks)
  unfolding close_all
  close_all-SameLoad c [] = (refl, refl)
  close_all-SameLoad c (k ∷ ks) =
      let (queue, count) = close_all-SameLoad (close_op c k OpKind.info Value.nil) ks in
      (
        queue ∙ close_op-queue c k OpKind.info Value.nil,
        count ∙ close_op-node_count c k OpKind.info Value.nil,
      )

  fire-SameLoad :
      (debug : T → Text) (c : SchedCore M T) (kind : EventKind M T)
      → SameLoad c (fire debug c kind).0
  unfolding fire apply_fault
  fire-SameLoad debug c (EventKind.timer node tag gen) = (refl, refl)
  fire-SameLoad debug c (EventKind.deliver from to msg) = (refl, refl)
  fire-SameLoad debug c (EventKind.client_op process index) = (refl, refl)
  fire-SameLoad debug c (EventKind.fault (FaultAction.partition a b)) = (refl, refl)
  fire-SameLoad debug c (EventKind.fault FaultAction.heal_all) = (refl, refl)
  fire-SameLoad debug c (EventKind.fault (FaultAction.crash k)) = close_all-SameLoad _ _
  fire-SameLoad debug c (EventKind.fault (FaultAction.restart k)) = (refl, refl)

  abbrev HasWeight : ℕ → Option (PoppedEvent M T) → Type 0
  HasWeight w none = Unit {0}
  HasWeight w (some e) = popped_weight e ≡ w

  fire-HasWeight :
      (debug : T → Text) (c : SchedCore M T) (kind : EventKind M T)
      → HasWeight (weight kind) (fire debug c kind).1
  unfolding fire
  fire-HasWeight debug c (EventKind.timer node tag gen) =
      if_intro (HasWeight (weights.of_tag tag))
        (timer_is_current debug c node tag gen && not (contains node c.crashed)) _ none (λ _. refl)
        (λ _. tt)
  fire-HasWeight debug c (EventKind.deliver from to msg) =
      if_intro (HasWeight (weights.of_msg msg)) (not (contains to c.crashed)) _ none (λ _. refl)
        (λ _. tt)
  fire-HasWeight debug c (EventKind.client_op process index) = refl
  fire-HasWeight debug c (EventKind.fault action) = refl

  abbrev Lightened : ℕ → ℕ → SchedCore M T × Option (PoppedEvent M T) → Type 0
  Lightened n b (d, none) = Unit {0}
  Lightened n b (d, some e) = (suc (popped_weight e) + load d.queue ≤ b) × (d.node_count ≡ n)

  -- An event that `pop` hands over has been taken off the load.
  pub pop-Lightened :
      (debug : T → Text) (c : SchedCore M T) (e : PoppedEvent M T)
      → (pop debug c).1 ≡ some e
      → (suc (popped_weight e) + load (pop debug c).0.queue ≤ load c.queue)
        × ((pop debug c).0.node_count ≡ c.node_count)
  pop-Lightened debug c e out =
      subst (λ o. Lightened c.node_count (load c.queue) ((pop debug c).0, o)) out
        (pop-Rule debug (λ d. (load d.queue ≤ load c.queue) × (d.node_count ≡ c.node_count))
          (Lightened c.node_count (load c.queue))
          (record {
            drain = λ d i empty. tt;
            stop = λ d ev rest i taken late. tt;
            hand = λ d ev rest e' i taken early out'.
                (let split = subst (Split d.queue) taken (take_min-Split d.queue) in
                  let (queue, count) = fire-SameLoad debug (advanced debug d ev rest) ev.kind in
                  let same = ap load queue in
                  let w =
                    subst (HasWeight (weight ev.kind)) out'
                      (fire-HasWeight debug (advanced debug d ev rest) ev.kind) in
                  let lighter = i.0 in (omega (arith, lighter), count ∙ i.1));
            skip = λ d ev rest i taken early out'.
                (let split = subst (Split d.queue) taken (take_min-Split d.queue) in
                  let lighter = i.0 in (omega (arith, lighter), i.1));
          })
          c (omega arith, refl))
