-- ===== src/Sim/Scheduler/Kept.antt =====
-- Invariants of the timeline: the queue with its numbers, the generations of the timers, the floors
-- of the links and the model of the network. What an invariant of them has to withstand is listed
-- once, and every call, fault and `pop` then keeps it.
use propsim.Base.{◌≡◌, refl, false, some, List, [], ◌∷◌, Text, inl, inr, Option-cases, Bool, true}
use propsim.Base.Maps.{find}
use propsim.History.{OpKind, ProcessId, Function}
use propsim.History.Values.{Value}
use propsim.Core.Node.{NodeId, OpToken, Duration}
use propsim.Sim.Scheduler.{
  SchedCore, Scheduled, EventKind, FaultAction, take_min, enqueue, schedule_delivery, arm_timer,
  cancel_timer, schedule_fault, close_op, open_op, record_entry, apply_fault, close_all, fire, pop,
  RunEvent,
}
use propsim.Sim.Scheduler.Calls.{Call, Calls, draw, send, arm, cancel, close, fault, here, next}
use propsim.Sim.Scheduler.Rule.{pop-Rule, advanced}

module _ {M T : Type 0} where
  -- Neither a message nor a timer.
  abbrev pub is_plain : EventKind M T → Bool
  is_plain (EventKind.client_op process index) = true
  is_plain (EventKind.fault action) = true
  is_plain _ = false

  -- The same timeline; the clock, the generator, the history and the rest may differ.
  pub record SameTimeline (c d : SchedCore M T) : Type 0 where
    pub queue : d.queue ≡ c.queue
    pub seq : d.seq ≡ c.seq
    pub timer_gen : d.timer_gen ≡ c.timer_gen
    pub last_link : d.last_link ≡ c.last_link
    pub model : d.model ≡ c.model

  abbrev pub same_timeline : (c : SchedCore M T) → SameTimeline c c
  same_timeline c = record {
    queue = refl;
    seq = refl;
    timer_gen = refl;
    last_link = refl;
    model = refl;
  }

  pub close_op-SameTimeline :
      (c : SchedCore M T) (token : OpToken) (kind : OpKind) (v : Value)
      → SameTimeline c (close_op c token kind v)
  unfolding close_op record_entry
  close_op-SameTimeline c token kind v = elim (Option-cases (find token c.pending_ops)) [
    | inl missing ↦ rw (missing, close_op) (same_timeline c)
    | inr (p, found) ↦
        rw (found, close_op)
          (record { queue = refl; seq = refl; timer_gen = refl; last_link = refl; model = refl })
  ]

module _ {M T : Type 0} (debug : T → Text) where
  pub record Kept (Inv : SchedCore M T → Type 0) : Type 0 where
    pub same : (c d : SchedCore M T) → SameTimeline c d → Inv c → Inv d
    pub sent :
        (c : SchedCore M T) (from to : NodeId) (msg : M)
        → Inv c
        → Inv (schedule_delivery c from to msg)
    pub armed :
        (c : SchedCore M T) (node : NodeId) (tag : T) (after : Duration)
        → Inv c
        → Inv (arm_timer debug c node tag after)
    pub cancelled :
        (c : SchedCore M T) (node : NodeId) (tag : T) → Inv c → Inv (cancel_timer debug c node tag)
    pub posted :
        (c : SchedCore M T) (at : Duration) (kind : EventKind M T)
        → is_plain kind ≡ true
        → Inv c
        → Inv (enqueue c at kind)
    pub taken :
        (c : SchedCore M T) (ev : Scheduled M T) (rest : List (Scheduled M T))
        → take_min c.queue ≡ some (ev, rest)
        → Inv c
        → Inv (record c { queue = rest })

  module _ (Inv : SchedCore M T → Type 0) (kept : Kept Inv) where
    Call-Kept : {c d : SchedCore M T} → Call debug c d → Inv c → Inv d
    unfolding schedule_fault
    Call-Kept {c = c} (draw rng) i =
        kept.same c _
          (record { queue = refl; seq = refl; timer_gen = refl; last_link = refl; model = refl }) i
    Call-Kept {c = c} (send from to msg) i = kept.sent c from to msg i
    Call-Kept {c = c} (arm node tag after) i = kept.armed c node tag after i
    Call-Kept {c = c} (cancel node tag) i = kept.cancelled c node tag i
    Call-Kept {c = c} (close token kind v t) i =
        kept.same c _ (close_op-SameTimeline c token kind v) i
    Call-Kept {c = c} (fault at action later) i = kept.posted c at (EventKind.fault action) refl i

    pub Calls-Kept : {c d : SchedCore M T} → Calls debug c d → Inv c → Inv d
    Calls-Kept here i = i
    Calls-Kept (next m s) i = Call-Kept s (Calls-Kept m i)

    pub open_op-Kept :
        (c : SchedCore M T) (process : ProcessId) (f : Function) (v : Value)
        → Inv c
        → Inv (open_op c process f v).0
    unfolding open_op record_entry
    open_op-Kept c process f v i =
        kept.same c _
          (record { queue = refl; seq = refl; timer_gen = refl; last_link = refl; model = refl }) i

    close_all-Kept : (c : SchedCore M T) (ks : List OpToken) → Inv c → Inv (close_all c ks)
    unfolding close_all
    close_all-Kept c [] i = i
    close_all-Kept c (k ∷ ks) i =
        close_all-Kept (close_op c k OpKind.info Value.nil) ks
          (kept.same c _ (close_op-SameTimeline c k OpKind.info Value.nil) i)

    -- What is left alone by a change of the clock, the partitions, the crashed nodes or the events.
    other :
        (c : SchedCore M T) (now : Duration) (partitions : List (List NodeId))
        (crashed : List NodeId) (events : List RunEvent)
        → Inv c
        → Inv (record c { now = now; partitions = partitions; crashed = crashed; events = events })
    other c now partitions crashed events i =
        kept.same c _
          (record { queue = refl; seq = refl; timer_gen = refl; last_link = refl; model = refl }) i

    fire-Kept : (c : SchedCore M T) (kind : EventKind M T) → Inv c → Inv (fire debug c kind).0
    unfolding fire apply_fault
    fire-Kept c (EventKind.timer node tag gen) i = i
    fire-Kept c (EventKind.deliver from to msg) i = i
    fire-Kept c (EventKind.client_op process index) i = i
    fire-Kept c (EventKind.fault (FaultAction.partition a b)) i = other c _ _ _ _ i
    fire-Kept c (EventKind.fault FaultAction.heal_all) i = other c _ _ _ _ i
    fire-Kept c (EventKind.fault (FaultAction.restart n)) i = other c _ _ _ _ i
    fire-Kept c (EventKind.fault (FaultAction.crash n)) i =
        close_all-Kept _ _ (other c c.now c.partitions _ c.events i)

    pub advanced-Kept :
        (c : SchedCore M T) (ev : Scheduled M T) (rest : List (Scheduled M T)) (now : Duration)
        → take_min c.queue ≡ some (ev, rest)
        → Inv c
        → Inv (record c { queue = rest; now = now })
    advanced-Kept c ev rest now taken i =
        other (record c { queue = rest }) now c.partitions c.crashed c.events
          (kept.taken c ev rest taken i)

    -- `pop` keeps the invariant.
    pub pop-Kept : (c : SchedCore M T) → Inv c → Inv (pop debug c).0
    pop-Kept c i =
        pop-Rule debug Inv (λ r. Inv r.0)
          (record {
            drain = λ d i empty. i;
            stop = λ d ev rest i taken late. advanced-Kept d ev rest d.horizon taken i;
            hand = λ d ev rest e i taken early out.
                fire-Kept (advanced debug d ev rest) ev.kind
                  (advanced-Kept d ev rest ev.at taken i);
            skip = λ d ev rest i taken early out. advanced-Kept d ev rest ev.at taken i;
          })
          c i
