-- ===== src/Sim/Scheduler/Pop.antt =====
-- What `pop` hands over, what it leaves, and what it passes over.
use mathlib.Core.List.Perm
use propsim.Base.{
  ℕ, ◌≤◌, ◌<◌, ◌≡◌, subst, inl, inr, ◌⊎◌, true, false, Option, none, some, List, [], ◌∷◌, ◌++◌,
  Perm, Text, arith, All, Bool-cases,
}
use propsim.Base.Maps.{contains}
use propsim.Core.Node.{NodeId, Duration}
use propsim.Sim.Scheduler.{
  SchedCore, Scheduled, EventKind, FaultAction, PoppedEvent, timer_is_current, apply_fault, fire,
}
use propsim.Sim.Scheduler.Rule.{Rule}

module _ {M T : Type 0} (debug : T → Text) where
  -- An event with nobody to take it: its node is down, or its timer was armed anew or cancelled.
  abbrev pub IsStale : SchedCore M T → EventKind M T → Type 0
  IsStale c (EventKind.deliver from to msg) = contains to c.crashed ≡ true
  IsStale c (EventKind.timer node tag gen) =
      (timer_is_current debug c node tag gen ≡ false) ⊎ (contains node c.crashed ≡ true)
  IsStale c _ = ⊥

  -- What the driver is told of an event.
  pub data Fires (c : SchedCore M T) : EventKind M T → PoppedEvent M T → Type 0 where
    deliver :
        (from to : NodeId) (msg : M)
        → contains to c.crashed ≡ false
        → Fires c (EventKind.deliver from to msg) (PoppedEvent.deliver from to msg)
    timer :
        (node : NodeId) (tag : T) (gen : ℕ)
        → timer_is_current debug c node tag gen ≡ true
        → contains node c.crashed ≡ false
        → Fires c (EventKind.timer node tag gen) (PoppedEvent.timer node tag)
    client_op :
        (process : NodeId) (index : ℕ)
        → Fires c (EventKind.client_op process index) (PoppedEvent.client_op process index)
    fault :
        (action : FaultAction)
        → Fires c (EventKind.fault action) (PoppedEvent.fault (apply_fault c action).1)

  -- The events that were passed over are stale.
  abbrev StaleAll : SchedCore M T → List (Scheduled M T) → Type 0
  StaleAll c skipped = All (λ y. IsStale c y.kind) skipped

  -- An event that is due no later than another, and at the same time was queued no later.
  abbrev IsNoLater : Scheduled M T → Scheduled M T → Type 0
  IsNoLater x y = (x.at < y.at) ⊎ ((x.at ≡ y.at) × (x.seq ≤ y.seq))

  -- `pop` gives `e`: the first event that is not stale, taken out of the queue of `c`.
  pub record Handed (c d : SchedCore M T) (e : PoppedEvent M T) : Type 0 where
    pub event : Scheduled M T
    pub skipped : List (Scheduled M T)
    pub rest : List (Scheduled M T)
    pub queued : Perm c.queue (skipped ++ event ∷ rest)
    pub stale : StaleAll c skipped
    pub least : All (IsNoLater event) rest
    pub in_time : event.at < c.horizon
    pub fires : Fires c event.kind e
    pub after : d ≡ (fire debug (record c { queue = rest; now = event.at }) event.kind).0

  -- The clock after some events were passed over, the last one first.
  abbrev clock : Duration → List (Scheduled M T) → Duration
  clock now [] = now
  clock now (last ∷ others) = last.at

  -- `pop` gives nothing. Either every event is stale: then the queue is left empty, with the clock
  -- at the last of them. Or the first event that is not stale is due at the horizon or later: it is
  -- dropped, the others are left in the queue, and the clock is at the horizon.
  pub data Ended (c d : SchedCore M T) : Type 0 where
    drained :
        (skipped : List (Scheduled M T))
        → Perm c.queue skipped
        → StaleAll c skipped
        → d ≡ record c { queue = []; now = clock c.now skipped }
        → Ended c d
    stopped :
        (skipped : List (Scheduled M T)) (event : Scheduled M T) (rest : List (Scheduled M T))
        → Perm c.queue (skipped ++ event ∷ rest)
        → StaleAll c skipped
        → c.horizon ≤ event.at
        → All (IsNoLater event) rest
        → d ≡ record c { queue = rest; now = c.horizon }
        → Ended c d

  abbrev pub Popped : SchedCore M T → SchedCore M T × Option (PoppedEvent M T) → Type 0
  Popped c (d, none) = Ended c d
  Popped c (d, some e) = Handed c d e

  -- Some rounds into the loop.
  record Skipping (c d : SchedCore M T) : Type 0 where
    skipped : List (Scheduled M T)
    queued : Perm c.queue (skipped ++ d.queue)
    stale : StaleAll c skipped
    same : d ≡ record c { queue = d.queue; now = clock c.now skipped }

  pub fire-some :
      (c : SchedCore M T) (kind : EventKind M T) (e : PoppedEvent M T)
      → (fire debug c kind).1 ≡ some e
      → Fires c kind e
  unfolding fire
  fire-some c (EventKind.deliver from to msg) e h = elim (Bool-cases (contains to c.crashed)) [
    | inl down ↦ let k = rw (down, fire) at h in cc
    | inr up ↦
        let k = rw (up, fire) at h in
        let same : PoppedEvent.deliver from to msg ≡ e = cc in
        subst (Fires c (EventKind.deliver from to msg)) same (deliver from to msg up)
  ]
  fire-some c (EventKind.timer node tag gen) e h =
      let current : timer_is_current debug c node tag gen ≡ true = ground arith in
      let up : contains node c.crashed ≡ false = ground arith in
      let k = rw (current, up, fire) at h in
      let same : PoppedEvent.timer node tag ≡ e = cc in
      subst (Fires c (EventKind.timer node tag gen)) same (timer node tag gen current up)
  fire-some c (EventKind.client_op process index) e h =
      let same : PoppedEvent.client_op process index ≡ e = cc in
      subst (Fires c (EventKind.client_op process index)) same (client_op process index)
  fire-some c (EventKind.fault action) e h =
      let same : PoppedEvent.fault (apply_fault c action).1 ≡ e = cc in
      subst (Fires c (EventKind.fault action)) same (fault action)
