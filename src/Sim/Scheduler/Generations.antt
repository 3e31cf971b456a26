-- ===== src/Sim/Scheduler/Generations.antt =====
-- The generations of the timers: which queued events of a timer can still fire.
pub mod Preserved
use propsim.Base.{
  ℕ, suc, ◌≤◌, ◌+◌, ◌==◌, ◌≡◌, refl, sym, ap, ◌∙◌, Bool, true, false, ◌&&◌, leb, if◌then◌else◌,
  arith, Option, some, List, [], ◌∷◌, Text, inl, inr, Bool-cases,
}
use propsim.Base.Maps.{tag_beq, tag_beq_iff, tag_keys, lookup-insert}
use propsim.Core.Node.{NodeId, Duration}
use propsim.Sim.Scheduler.{
  SchedCore, Scheduled, EventKind, PoppedEvent, enqueue, schedule_delivery, take_min, current_gen,
  bump_gen, arm_timer, cancel_timer, timer_is_current, fire, pop, NetworkModel,
}
use propsim.Sim.Scheduler.Sending.{schedule_delivery-rule}
use propsim.Sim.Scheduler.Kept.{Kept, is_plain}
use propsim.Sim.Scheduler.Turns.{one_if}
use propsim.Sim.Scheduler.Count.{counted, queued, queued-taken}
use propsim.Sim.Scheduler.Rule.{pop-Rule, advanced}
use propsim.Sim.Scheduler.Pop.{Fires, fire-some, deliver, timer, client_op, fault}

-- A timer is a node and the `Debug` form of its tag.

abbrev pub generation : {M T : Type 0} → SchedCore M T → ℕ × Text → ℕ
generation c (node, tag) = current_gen c node tag

pub queued-le :
    {M T : Type 0} (f g : EventKind M T → Bool) (q : List (Scheduled M T))
    → ((e : EventKind M T) → one_if (f e) ≤ one_if (g e))
    → queued f q ≤ queued g q
unfolding counted
queued-le f g [] h = omega arith
queued-le f g (e ∷ q) h = omega (arith, h e.kind, queued-le f g q h)

module _ {M T : Type 0} (debug : T → Text) where
  -- Whether an event is one of the timer, of the generation.
  abbrev pub is_of : ℕ × Text → ℕ → EventKind M T → Bool
  is_of k gen (EventKind.timer node tag g) = tag_beq k (node, debug tag) && g == gen
  is_of k gen _ = false

  -- Whether it is of the generation or a later one.
  abbrev pub is_from : ℕ × Text → ℕ → EventKind M T → Bool
  is_from k gen (EventKind.timer node tag g) = tag_beq k (node, debug tag) && leb gen g
  is_from k gen _ = false

  -- The queued events of the timer that are not stale: those of its current generation.
  abbrev pub live : SchedCore M T → ℕ × Text → ℕ
  live c k = queued (is_of k (generation c k)) c.queue

  -- One event at most of each timer is not stale, and none is of a generation to come.
  pub record IsTimed (c : SchedCore M T) : Type 0 where
    pub single : (k : ℕ × Text) → queued (is_from k (generation c k)) c.queue ≤ 1
    pub none_ahead : (k : ℕ × Text) → queued (is_from k (suc (generation c k))) c.queue ≡ 0

  pub is_of-is_from :
      (k : ℕ × Text) (gen : ℕ) (e : EventKind M T)
      → one_if (is_of k gen e) ≤ one_if (is_from k gen e)
  is_of-is_from k gen (EventKind.timer node tag g) = ground arith
  is_of-is_from k gen (EventKind.deliver from to msg) = omega arith
  is_of-is_from k gen (EventKind.client_op process index) = omega arith
  is_of-is_from k gen (EventKind.fault action) = omega arith

  pub is_from-suc :
      (k : ℕ × Text) (gen : ℕ) (e : EventKind M T)
      → one_if (is_from k (suc gen) e) ≤ one_if (is_from k gen e)
  is_from-suc k gen (EventKind.timer node tag g) = ground arith
  is_from-suc k gen (EventKind.deliver from to msg) = omega arith
  is_from-suc k gen (EventKind.client_op process index) = omega arith
  is_from-suc k gen (EventKind.fault action) = omega arith

  pub live-from :
      (c : SchedCore M T) (k : ℕ × Text) → live c k ≤ queued (is_from k (generation c k)) c.queue
  live-from c k = queued-le _ _ c.queue (is_of-is_from k (generation c k))

  -- No more than one event of a timer can fire.
  pub IsTimed-live : (c : SchedCore M T) (k : ℕ × Text) → IsTimed c → live c k ≤ 1
  IsTimed-live c k h = omega (arith, live-from c k, h.single k)

  -- Only the queue and the generations matter.
  pub same-IsTimed :
      (c d : SchedCore M T) → d.queue ≡ c.queue → d.timer_gen ≡ c.timer_gen → IsTimed c → IsTimed d
  unfolding current_gen
  same-IsTimed c d q g h = record {
    single = λ k. rw (q, g) (h.single k);
    none_ahead = λ k. rw (q, g) (h.none_ahead k);
  }

  pub remodel-IsTimed :
      (c : SchedCore M T) (model : NetworkModel) → IsTimed c → IsTimed (record c { model = model })
  remodel-IsTimed c model = same-IsTimed c _ refl refl

  abbrev pub is_timer : EventKind M T → Bool
  is_timer (EventKind.timer node tag gen) = true
  is_timer _ = false

  pub not_from :
      (k : ℕ × Text) (gen : ℕ) (kind : EventKind M T)
      → is_timer kind ≡ false
      → is_from k gen kind ≡ false
  not_from k gen (EventKind.timer node tag g) h = cc
  not_from k gen (EventKind.deliver from to msg) h = refl
  not_from k gen (EventKind.client_op process index) h = refl
  not_from k gen (EventKind.fault action) h = refl

  pub untimed-IsTimed :
      (c : SchedCore M T) (at : Duration) (kind : EventKind M T)
      → is_timer kind ≡ false
      → IsTimed c
      → IsTimed (enqueue c at kind)
  unfolding enqueue current_gen counted
  untimed-IsTimed c at kind t h = record {
    single = λ k. omega (arith, ap one_if (not_from k (generation c k) kind t), h.single k);
    none_ahead =
        λ k. omega (arith, ap one_if (not_from k (suc (generation c k)) kind t), h.none_ahead k);
  }

  pub schedule_delivery-IsTimed :
      (c : SchedCore M T) (from to : NodeId) (msg : M)
      → IsTimed c
      → IsTimed (schedule_delivery c from to msg)
  schedule_delivery-IsTimed =
      schedule_delivery-rule IsTimed (λ c rng. same-IsTimed c _ refl refl)
        (λ c links. same-IsTimed c _ refl refl)
        (λ c at from to msg. untimed-IsTimed c at (EventKind.deliver from to msg) refl)
