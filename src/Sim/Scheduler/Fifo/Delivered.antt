-- ===== src/Sim/Scheduler/Fifo/Delivered.antt =====
-- What `pop` delivers on a network that keeps the order of each link.
use propsim.Base.{
  ℕ, ◌≡◌, refl, sym, ap, ◌∙◌, true, false, ◌&&◌, ltb, arith, Option, some, List, [], ◌∷◌, Mem, All,
  Text, inl, inr, Bool-cases,
}
use mathlib.Core.List.Perm
use mathlib.Core.List.{mem-cons_self, mem-cons_of_mem}
use propsim.Base.Maps.{pair_beq, pair_beq_iff, lookup, link_keys}
use propsim.Core.Node.{NodeId, Duration}
use propsim.Sim.Scheduler.{
  SchedCore, Scheduled, EventKind, or_zero, PoppedEvent, enqueue, schedule_delivery, take_min,
  bump_gen, arm_timer, cancel_timer, fire, pop,
}
use propsim.Sim.Scheduler.Sending.{schedule_delivery-rule}
use propsim.Sim.Scheduler.Kept.{Kept, SameTimeline, is_plain}
use propsim.Sim.Scheduler.Queue.{Chosen-some}
use propsim.Sim.Scheduler.Rule.{pop-Rule, advanced}
use propsim.Sim.Scheduler.Pop.{Fires, fire-some, deliver, timer, client_op, fault}
use propsim.Sim.Scheduler.Fifo.{
  on_link, IsFifo, IsFifo-raised, enqueue-IsFifo, schedule_delivery-IsFifo, oldest, taken-IsFifo,
}

module _ {M T : Type 0} where
  schedule_delivery-model :
      (c : SchedCore M T) (from to : NodeId) (msg : M)
      → (schedule_delivery c from to msg).model ≡ c.model
  unfolding enqueue
  schedule_delivery-model c from to msg =
      schedule_delivery-rule (λ d. d.model ≡ c.model) (λ d rng e. e) (λ d links e. e)
        (λ d at from to msg e. e) c from to msg refl

  -- The queue of a network that keeps the order of each link.
  pub record InLinkOrder (c : SchedCore M T) : Type 0 where
    pub ordered : c.model.ordered ≡ true
    pub fifo : IsFifo c

  same-IsFifo : (c d : SchedCore M T) → SameTimeline c d → IsFifo c → IsFifo d
  same-IsFifo c d s =
      IsFifo-raised c d s.queue s.seq
        (λ k. omega (arith, ap (λ m. or_zero (lookup link_keys k m)) s.last_link))

  -- What is not on a link may be queued at any time.
  pub off_link-IsFifo :
      (c : SchedCore M T) (at : Duration) (kind : EventKind M T)
      → ((k : ℕ × ℕ) → on_link k kind ≡ false)
      → IsFifo c
      → IsFifo (enqueue c at kind)
  off_link-IsFifo c at kind off =
      enqueue-IsFifo c at kind (λ k on. let bad : true ≡ false = sym on ∙ off k in absurd (cc))

  pub posted-IsFifo :
      (c : SchedCore M T) (at : Duration) (kind : EventKind M T)
      → is_plain kind ≡ true
      → IsFifo c
      → IsFifo (enqueue c at kind)
  posted-IsFifo c at (EventKind.deliver from to msg) p h = cc
  posted-IsFifo c at (EventKind.timer node tag gen) p h = cc
  posted-IsFifo c at (EventKind.client_op process index) p h =
      off_link-IsFifo c at (EventKind.client_op process index) (λ k. refl) h
  posted-IsFifo c at (EventKind.fault action) p h =
      off_link-IsFifo c at (EventKind.fault action) (λ k. refl) h

  bumped-IsFifo :
      (c : SchedCore M T) (node : NodeId) (tag : Text) → IsFifo c → IsFifo (bump_gen c node tag)
  unfolding bump_gen
  bumped-IsFifo c node tag = IsFifo-raised c _ refl refl (λ k. omega arith)

  pub InLinkOrder-Kept : (debug : T → Text) → Kept debug InLinkOrder
  unfolding arm_timer cancel_timer enqueue bump_gen
  InLinkOrder-Kept debug = record {
    same = λ c d s i. record {
      ordered = ap (λ m. m.ordered) s.model ∙ i.ordered;
      fifo = same-IsFifo c d s i.fifo;
    };
    sent = λ c from to msg i. record {
      ordered = ap (λ m. m.ordered) (schedule_delivery-model c from to msg) ∙ i.ordered;
      fifo = schedule_delivery-IsFifo c from to msg i.ordered i.fifo;
    };
    armed = λ c node tag after i. record {
      ordered = i.ordered;
      fifo =
          off_link-IsFifo _ _ (EventKind.timer node tag _) (λ k. refl)
            (bumped-IsFifo c node (debug tag) i.fifo);
    };
    cancelled = λ c node tag i. record {
      ordered = i.ordered;
      fifo = bumped-IsFifo c node (debug tag) i.fifo;
    };
    posted =
        λ c at kind p i. record { ordered = i.ordered; fifo = posted-IsFifo c at kind p i.fifo };
    taken = λ c ev rest e i. record { ordered = i.ordered; fifo = taken-IsFifo c ev rest e i.fifo };
  }

  -- The event of the queue of `c` that is delivered, and that no message of its link in the queue
  -- of `d` was sent before.
  pub record Delivered (c d : SchedCore M T) (from to : NodeId) (msg : M) : Type 0 where
    pub event : Scheduled M T
    pub queued : Mem event c.queue
    pub what : event.kind ≡ EventKind.deliver from to msg
    pub first : All (λ y. (on_link (from, to) y.kind && ltb y.seq event.seq) ≡ false) d.queue

  abbrev pub FirstOfLink : SchedCore M T → SchedCore M T × Option (PoppedEvent M T) → Type 0
  FirstOfLink c (d, some (PoppedEvent.deliver from to msg)) = Delivered c d from to msg
  FirstOfLink c (d, _) = Unit

  All-mem :
      {P : Scheduled M T → Type 0} (q : List (Scheduled M T))
      → ((y : Scheduled M T) → Mem y q → P y)
      → All P q
  All-mem [] h = tt
  All-mem (y ∷ q) h = (h y mem-cons_self, All-mem q (λ z m. h z (mem-cons_of_mem y m)))

  -- In the order of its links, and with no event that the queue of `c` did not have.
  record Within (c d : SchedCore M T) : Type 0 where
    fifo : IsFifo d
    within : (x : Scheduled M T) → Mem x d.queue → Mem x c.queue

  advanced-Within :
      (debug : T → Text) (c d : SchedCore M T) (ev : Scheduled M T) (rest : List (Scheduled M T))
      → take_min d.queue ≡ some (ev, rest)
      → Within c d
      → Within c (advanced debug d ev rest)
  advanced-Within debug c d ev rest taken w =
      let (perm, least, len) = Chosen-some d.queue ev rest taken in
      record {
        fifo = IsFifo-raised _ _ refl refl (λ k. omega arith) (taken-IsFifo d ev rest taken w.fifo);
        within = λ x m. w.within x ((Perm.mem_iff perm).1 (mem-cons_of_mem ev m));
      }

  fire-FirstOfLink :
      (debug : T → Text) (c d : SchedCore M T) (ev : Scheduled M T) (rest : List (Scheduled M T))
      (kind : EventKind M T) (e : PoppedEvent M T)
      → Within c d
      → take_min d.queue ≡ some (ev, rest)
      → ev.kind ≡ kind
      → Fires debug (advanced debug d ev rest) kind e
      → FirstOfLink c ((fire debug (advanced debug d ev rest) kind).0, some e)
  unfolding fire
  fire-FirstOfLink debug c d ev rest _ _ w taken same (deliver from to msg up) =
      let (perm, least, len) = Chosen-some d.queue ev rest taken in
      let self : pair_beq (from, to) (from, to) ≡ true =
        (pair_beq_iff (from, to) (from, to)).1 refl in
      let mine : on_link (from, to) ev.kind ≡ true = ap (on_link (from, to)) same ∙ self in
      record {
        event = ev;
        queued = w.within ev ((Perm.mem_iff perm).1 mem-cons_self);
        what = same;
        first = All-mem rest (λ y m. elim (Bool-cases (on_link (from, to) y.kind)) [
          | inr off ↦ rw off refl
          | inl on ↦
              let after = oldest d ev rest (from, to) y w.fifo taken mine m on in
              ground (arith, after)
        ]);
      }
  fire-FirstOfLink debug c d ev rest _ _ w taken same (timer node tag gen current up) = tt
  fire-FirstOfLink debug c d ev rest _ _ w taken same (client_op process index) = tt
  fire-FirstOfLink debug c d ev rest _ _ w taken same (fault action) = tt

  -- On a queue in the order of the links, a message that `pop` delivers was sent before every
  -- message of its link that stays queued, also when `pop` skips events on the way to it.
  pub pop-FirstOfLink :
      (debug : T → Text) (c : SchedCore M T) → IsFifo c → FirstOfLink c (pop debug c)
  pop-FirstOfLink debug c h =
      pop-Rule debug (Within c) (FirstOfLink c)
        (record {
          drain = λ d w empty. tt;
          stop = λ d ev rest w taken late. tt;
          hand = λ d ev rest e w taken early out.
              fire-FirstOfLink debug c d ev rest ev.kind e w taken refl
                (fire-some debug (advanced debug d ev rest) ev.kind e out);
          skip = λ d ev rest w taken early out. advanced-Within debug c d ev rest taken w;
        })
        c (record { fifo = h; within = λ x m. m })
