-- ===== src/Sim/Scheduler/Timers.antt =====
-- `arm_timer`, `cancel_timer` and `pop` on the events of a timer that can fire.
use propsim.Base.{
  ℕ, ◌+◌, ◌==◌, ◌≡◌, refl, ap, ◌∙◌, true, ◌&&◌, if◌then◌else◌, arith, Option, some, List, [], Text,
  inl, inr, Bool-cases,
}
use propsim.Base.Maps.{tag_beq, tag_beq_iff}
use propsim.Core.Node.{NodeId, Duration}
use propsim.Sim.Scheduler.{
  SchedCore, Scheduled, EventKind, PoppedEvent, enqueue, take_min, current_gen, bump_gen, arm_timer,
  cancel_timer, timer_is_current, fire, pop,
}
use propsim.Sim.Scheduler.Turns.{one_if}
use propsim.Sim.Scheduler.Count.{counted, queued, queued-taken}
use propsim.Sim.Scheduler.Rule.{pop-Rule, advanced}
use propsim.Sim.Scheduler.Pop.{Fires, fire-some, deliver, timer, client_op, fault}
use propsim.Sim.Scheduler.Generations.{
  generation, queued-le, is_of, live, IsTimed, is_of-is_from, IsTimed-live,
}
use propsim.Sim.Scheduler.Generations.Preserved.{generation-bump, bump_gen-stale, taken-IsTimed}

module _ {M T : Type 0} (debug : T → Text) where
  bump_gen-live :
      (c : SchedCore M T) (node : NodeId) (tag : Text) (k : ℕ × Text)
      → IsTimed debug c
      → queued (is_of debug k (generation (bump_gen c node tag) k)) c.queue
        ≡ (if tag_beq k (node, tag) then 0 else live debug c k)
  bump_gen-live c node tag k h = elim (Bool-cases (tag_beq k (node, tag))) [
    | inl same ↦
        let few =
          queued-le _ _ c.queue (is_of-is_from debug k (generation (bump_gen c node tag) k)) in
        rw same (omega (arith, few, bump_gen-stale debug c node tag k h same))
    | inr other ↦ rw (generation-bump debug c node tag k, other) refl
  ]

  -- The events that are not stale, of any timer, before and after one is cancelled: none of the
  -- cancelled timer, and of the others the same.
  pub cancel_timer-live :
      (c : SchedCore M T) (node : NodeId) (tag : T) (k : ℕ × Text)
      → IsTimed debug c
      → live debug (cancel_timer debug c node tag) k
        ≡ (if tag_beq k (node, debug tag) then 0 else live debug c k)
  unfolding cancel_timer bump_gen
  cancel_timer-live c node tag k h = bump_gen-live c node (debug tag) k h

  newest-live :
      (c d : SchedCore M T) (key k : ℕ × Text)
      → queued (is_of debug k (generation d k)) c.queue
        ≡ (if tag_beq k key then 0 else live debug c k)
      → one_if (tag_beq k key && generation d key == generation d k)
          + queued (is_of debug k (generation d k)) c.queue
        ≡ (if tag_beq k key then 1 else live debug c k)
  newest-live c d key k e = elim (Bool-cases (tag_beq k key)) [
    | inl same ↦
        let gens : generation d k ≡ generation d key =
          ap (generation d) ((tag_beq_iff k key).0 same) in
        ground (arith, gens, e, same)
    | inr other ↦ ground (arith, e, other)
  ]

  -- And before and after one is armed: the new event is the only one of its timer.
  pub arm_timer-live :
      (c : SchedCore M T) (node : NodeId) (tag : T) (after : Duration) (k : ℕ × Text)
      → IsTimed debug c
      → live debug (arm_timer debug c node tag after) k
        ≡ (if tag_beq k (node, debug tag) then 1 else live debug c k)
  unfolding arm_timer bump_gen enqueue counted current_gen
  arm_timer-live c node tag after k h =
      newest-live c (bump_gen c node (debug tag)) (node, debug tag) k
        (bump_gen-live c node (debug tag) k h)

  -- A timer that `pop` hands over has no event left that could fire.
  abbrev pub Spent : SchedCore M T × Option (PoppedEvent M T) → Type 0
  Spent (d, some (PoppedEvent.timer node tag)) = live debug d (node, debug tag) ≡ 0
  Spent (d, _) = Unit

  fire-Spent :
      (c : SchedCore M T) (ev : Scheduled M T) (rest : List (Scheduled M T)) (kind : EventKind M T)
      (e : PoppedEvent M T)
      → take_min c.queue ≡ some (ev, rest)
      → ev.kind ≡ kind
      → IsTimed debug c
      → Fires debug (advanced debug c ev rest) kind e
      → Spent ((fire debug (advanced debug c ev rest) kind).0, some e)
  unfolding fire timer_is_current current_gen
  fire-Spent c ev rest _ _ taken same h (timer node tag gen current up) =
      let key : ℕ × Text = (node, debug tag) in
      let self : tag_beq key key ≡ true = (tag_beq_iff key key).1 refl in
      let mine : is_of debug key (generation c key) ev.kind ≡ true =
        ap (is_of debug key (generation c key)) same ∙ ground (arith, self, current) in
      let split = queued-taken (is_of debug key (generation c key)) c.queue ev rest taken in
      omega (arith, ap one_if mine, IsTimed-live debug c key h)
  fire-Spent c ev rest _ _ taken same h (deliver from to msg up) = tt
  fire-Spent c ev rest _ _ taken same h (client_op process index) = tt
  fire-Spent c ev rest _ _ taken same h (fault action) = tt

  -- When `pop` hands a timer over, no event that could fire it again is queued.
  pub pop-Spent : (c : SchedCore M T) → IsTimed debug c → Spent (pop debug c)
  pop-Spent c h =
      pop-Rule debug (IsTimed debug) Spent
        (record {
          drain = λ d i empty. tt;
          stop = λ d ev rest i taken late. tt;
          hand = λ d ev rest e i taken early out.
              fire-Spent d ev rest ev.kind e taken refl i
                (fire-some debug (advanced debug d ev rest) ev.kind e out);
          skip = λ d ev rest i taken early out. taken-IsTimed debug d ev rest ev.at taken i;
        })
        c h

  -- No event is queued yet.
  pub empty-IsTimed : (c : SchedCore M T) → c.queue ≡ [] → IsTimed debug c
  unfolding counted
  empty-IsTimed c e = record { single = λ k. rw e (omega arith); none_ahead = λ k. rw e refl }
