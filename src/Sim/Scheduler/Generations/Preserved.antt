-- ===== src/Sim/Scheduler/Generations/Preserved.antt =====
-- What the calls of the scheduler do to the generations of the timers.
use propsim.Base.{
  ℕ, suc, ◌≤◌, ◌+◌, ◌≡◌, refl, sym, ap, ◌∙◌, true, false, ◌&&◌, leb, if◌then◌else◌, arith, some,
  List, Text, inl, inr, Bool-cases,
}
use propsim.Base.Maps.{tag_beq, tag_beq_iff, tag_keys, lookup-insert}
use propsim.Core.Node.{NodeId, Duration}
use propsim.Sim.Scheduler.{
  SchedCore, Scheduled, EventKind, enqueue, take_min, current_gen, bump_gen, arm_timer,
  cancel_timer,
}
use propsim.Sim.Scheduler.Kept.{Kept, is_plain}
use propsim.Sim.Scheduler.Turns.{one_if}
use propsim.Sim.Scheduler.Count.{counted, queued, queued-taken}
use propsim.Sim.Scheduler.Generations.{
  generation, queued-le, is_from, IsTimed, is_from-suc, same-IsTimed, is_timer, untimed-IsTimed,
  schedule_delivery-IsTimed,
}

module _ {M T : Type 0} (debug : T → Text) where
  pub generation-bump :
      (c : SchedCore M T) (node : NodeId) (tag : Text) (k : ℕ × Text)
      → generation (bump_gen c node tag) k
        ≡ (if tag_beq k (node, tag) then suc (generation c k) else generation c k)
  unfolding bump_gen current_gen
  generation-bump c node tag k =
      let new = suc (current_gen c node tag) in
      rw (lookup-insert tag_keys (node, tag) k new c.timer_gen)
        (elim (Bool-cases (tag_beq k (node, tag))) [
          | inl same ↦
              rw same (ap (λ j. suc (generation c j)) (sym ((tag_beq_iff k (node, tag)).0 same)))
          | inr other ↦ rw other refl
        ])

  -- The events of an armed or cancelled timer that were queued are stale.
  pub bump_gen-stale :
      (c : SchedCore M T) (node : NodeId) (tag : Text) (k : ℕ × Text)
      → IsTimed debug c
      → tag_beq k (node, tag) ≡ true
      → queued (is_from debug k (generation (bump_gen c node tag) k)) c.queue ≡ 0
  bump_gen-stale c node tag k h same = rw (generation-bump c node tag k, same) (h.none_ahead k)

  pub bump_gen-IsTimed :
      (c : SchedCore M T) (node : NodeId) (tag : Text)
      → IsTimed debug c
      → IsTimed debug (bump_gen c node tag)
  unfolding bump_gen
  bump_gen-IsTimed c node tag h = record {
    single = λ k. elim (Bool-cases (tag_beq k (node, tag))) [
      | inl same ↦ omega (arith, bump_gen-stale c node tag k h same)
      | inr other ↦ rw (generation-bump c node tag k, other) (h.single k)
    ];
    none_ahead = λ k. elim (Bool-cases (tag_beq k (node, tag))) [
      | inl same ↦
          let less =
            queued-le _ _ c.queue (is_from-suc debug k (generation (bump_gen c node tag) k)) in
          omega (arith, less, bump_gen-stale c node tag k h same)
      | inr other ↦ rw (generation-bump c node tag k, other) (h.none_ahead k)
    ];
  }

  pub newest-single :
      (c : SchedCore M T) (key k : ℕ × Text)
      → queued (is_from debug key (generation c key)) c.queue ≡ 0
      → IsTimed debug c
      → one_if (tag_beq k key && leb (generation c k) (generation c key))
          + queued (is_from debug k (generation c k)) c.queue
        ≤ 1
  newest-single c key k stale h = elim (Bool-cases (tag_beq k key)) [
    | inl same ↦
        let first =
          ap (λ j. queued (is_from debug j (generation c j)) c.queue) ((tag_beq_iff k key).0 same)
          ∙ stale in
        ground (arith, first)
    | inr other ↦ rw other (omega (arith, h.single k))
  ]

  pub newest-ahead :
      (c : SchedCore M T) (key k : ℕ × Text)
      → IsTimed debug c
      → one_if (tag_beq k key && leb (suc (generation c k)) (generation c key))
          + queued (is_from debug k (suc (generation c k))) c.queue
        ≡ 0
  newest-ahead c key k h = elim (Bool-cases (tag_beq k key)) [
    | inl same ↦
        let gens : generation c k ≡ generation c key =
          ap (generation c) ((tag_beq_iff k key).0 same) in
        let kept = h.none_ahead k in
        let late : leb (suc (generation c k)) (generation c key) ≡ false = ground (arith, gens) in
        rw (same, late) (omega (arith, kept))
    | inr other ↦ rw other (omega (arith, h.none_ahead k))
  ]

  -- A timer event of the current generation is queued when the others of its timer are stale.
  pub enqueue_timer-IsTimed :
      (c : SchedCore M T) (at : Duration) (node : NodeId) (tag : T)
      → queued (is_from debug (node, debug tag) (generation c (node, debug tag))) c.queue ≡ 0
      → IsTimed debug c
      → IsTimed debug (enqueue c at (EventKind.timer node tag (current_gen c node (debug tag))))
  unfolding enqueue counted current_gen
  enqueue_timer-IsTimed c at node tag stale h = record {
    single = λ k. newest-single c (node, debug tag) k stale h;
    none_ahead = λ k. newest-ahead c (node, debug tag) k h;
  }

  pub arm_timer-IsTimed :
      (c : SchedCore M T) (node : NodeId) (tag : T) (after : Duration)
      → IsTimed debug c
      → IsTimed debug (arm_timer debug c node tag after)
  unfolding arm_timer bump_gen
  arm_timer-IsTimed c node tag after h =
      let key : ℕ × Text = (node, debug tag) in
      enqueue_timer-IsTimed (bump_gen c node (debug tag)) (c.now + after) node tag
        (bump_gen-stale c node (debug tag) key h ((tag_beq_iff key key).1 refl))
        (bump_gen-IsTimed c node (debug tag) h)

  pub plain_untimed : (kind : EventKind M T) → is_plain kind ≡ true → is_timer debug kind ≡ false
  plain_untimed (EventKind.timer node tag gen) p = cc
  plain_untimed (EventKind.deliver from to msg) p = refl
  plain_untimed (EventKind.client_op process index) p = refl
  plain_untimed (EventKind.fault action) p = refl

  pub taken-IsTimed :
      (c : SchedCore M T) (ev : Scheduled M T) (rest : List (Scheduled M T)) (now : Duration)
      → take_min c.queue ≡ some (ev, rest)
      → IsTimed debug c
      → IsTimed debug (record c { queue = rest; now = now })
  unfolding current_gen
  taken-IsTimed c ev rest now taken h = record {
    single = λ k.
        let split = queued-taken (is_from debug k (generation c k)) c.queue ev rest taken in
        omega (arith, h.single k);
    none_ahead = λ k.
        let split = queued-taken (is_from debug k (suc (generation c k))) c.queue ev rest taken in
        omega (arith, h.none_ahead k);
  }

  pub IsTimed-Kept : Kept {M = M} debug (IsTimed debug)
  unfolding cancel_timer
  IsTimed-Kept = record {
    same = λ c d s. same-IsTimed debug c d s.queue s.timer_gen;
    sent = schedule_delivery-IsTimed debug;
    armed = arm_timer-IsTimed;
    cancelled = λ c node tag. bump_gen-IsTimed c node (debug tag);
    posted = λ c at kind p. untimed-IsTimed debug c at kind (plain_untimed kind p);
    taken = λ c ev rest taken. taken-IsTimed c ev rest c.now taken;
  }
