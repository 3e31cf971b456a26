-- ===== src/Sim/Faults/Liveness.antt =====
-- In liveness mode a swarm undoes its faults.
use propsim.Base.{
  ℕ, suc, ◌+◌, ◌-◌, ◌%◌, ◌≤◌, ◌<◌, ◌≡◌, refl, sym, subst, ◌⊎◌, inl, inr, max, Bool, true, false,
  List, [], ◌∷◌, arith, All, All-map, if_intro, leb,
}
use native.Mathlib.Nat.{mod-lt}
use propsim.Core.Node.{Duration, millis}
use propsim.Core.Transport.{NetworkModel}
use propsim.Core.Faults.{liveness, FaultKind}
use propsim.Sim.Rng.{SimRng, next, range_u64}
use propsim.Sim.Scheduler.{SchedCore, Scheduled, EventKind, FaultAction, schedule_fault, enqueue}
use propsim.Sim.Faults.{
  Swarm, choose_kinds, node_range, swarm_partition, swarm_crash, lower_kind, lower_kinds,
  lower_swarm,
}

-- A draw from a range that is not empty lies in it.

pub range_u64-bounds :
    (r : SimRng) (lo hi : ℕ) → lo < hi → (lo ≤ (range_u64 r lo hi).0) × ((range_u64 r lo hi).0 < hi)
unfolding range_u64
range_u64-bounds r lo hi h =
    if_intro {A = ℕ × SimRng} (λ x. (lo ≤ x.0) × (x.0 < hi)) (leb hi lo) _ _
      (λ e. absurd (ground arith))
      (λ e.
        let k : (next r).0 % (hi - lo) < hi - lo = mod-lt (next r).0 (omega arith) in
        (omega arith, omega arith))

module _ {M T : Type 0} where
  -- Some later fault of the queue is this one.
  abbrev pub Later : FaultAction → Duration → List (Scheduled M T) → Type 0
  Later a t [] = ⊥
  Later a t (e ∷ q) = ((e.kind ≡ EventKind.fault a) × (t < e.at)) ⊎ Later a t q

  -- A crash is followed by the restart of its node, a partition by the healing of all.
  abbrev pub IsUndone : List (Scheduled M T) → Duration → EventKind M T → Type 0
  IsUndone q t (EventKind.fault (FaultAction.crash n)) = Later (FaultAction.restart n) t q
  IsUndone q t (EventKind.fault (FaultAction.partition a b)) = Later FaultAction.heal_all t q
  IsUndone q t _ = Unit {0}

  -- Before the end of the lowering a partition is noted, and comes within the first second.
  abbrev IsNoted : Bool → List (Scheduled M T) → Duration → EventKind M T → Type 0
  IsNoted noted q t (EventKind.fault (FaultAction.crash n)) = Later (FaultAction.restart n) t q
  IsNoted noted q t (EventKind.fault (FaultAction.partition a b)) =
      (noted ≡ true) × (t < millis 1000)
  IsNoted noted q t _ = Unit {0}

  IsNoted-cons :
      (noted : Bool) (x : Scheduled M T) (q : List (Scheduled M T)) (t : Duration)
      (k : EventKind M T)
      → IsNoted noted q t k
      → IsNoted noted (x ∷ q) t k
  IsNoted-cons noted x q t (EventKind.fault (FaultAction.crash n)) h = inr h
  IsNoted-cons noted x q t (EventKind.fault (FaultAction.partition a b)) h = h
  IsNoted-cons noted x q t (EventKind.fault FaultAction.heal_all) h = tt
  IsNoted-cons noted x q t (EventKind.fault (FaultAction.restart n)) h = tt
  IsNoted-cons noted x q t (EventKind.deliver from to msg) h = tt
  IsNoted-cons noted x q t (EventKind.timer node tag gen) h = tt
  IsNoted-cons noted x q t (EventKind.client_op process index) h = tt

  IsNoted-true :
      (noted : Bool) (q : List (Scheduled M T)) (t : Duration) (k : EventKind M T)
      → IsNoted noted q t k
      → IsNoted true q t k
  IsNoted-true noted q t (EventKind.fault (FaultAction.crash n)) h = h
  IsNoted-true noted q t (EventKind.fault (FaultAction.partition a b)) h = (refl, h.1)
  IsNoted-true noted q t (EventKind.fault FaultAction.heal_all) h = tt
  IsNoted-true noted q t (EventKind.fault (FaultAction.restart n)) h = tt
  IsNoted-true noted q t (EventKind.deliver from to msg) h = tt
  IsNoted-true noted q t (EventKind.timer node tag gen) h = tt
  IsNoted-true noted q t (EventKind.client_op process index) h = tt

  -- A healing after the first second undoes what was noted.
  IsNoted-healed :
      (noted : Bool) (x : Scheduled M T) (q : List (Scheduled M T)) (t : Duration)
      (k : EventKind M T)
      → x.kind ≡ EventKind.fault FaultAction.heal_all
      → millis 1000 ≤ x.at
      → IsNoted noted q t k
      → IsUndone (x ∷ q) t k
  IsNoted-healed noted x q t (EventKind.fault (FaultAction.crash n)) e l h = inr h
  IsNoted-healed noted x q t (EventKind.fault (FaultAction.partition a b)) e l h =
      inl (e, omega (arith, h.1))
  IsNoted-healed noted x q t (EventKind.fault FaultAction.heal_all) e l h = tt
  IsNoted-healed noted x q t (EventKind.fault (FaultAction.restart n)) e l h = tt
  IsNoted-healed noted x q t (EventKind.deliver from to msg) e l h = tt
  IsNoted-healed noted x q t (EventKind.timer node tag gen) e l h = tt
  IsNoted-healed noted x q t (EventKind.client_op process index) e l h = tt

  -- Where no partition was noted there is none.
  IsNoted-none :
      (noted : Bool) (q : List (Scheduled M T)) (t : Duration) (k : EventKind M T)
      → noted ≡ false
      → IsNoted noted q t k
      → IsUndone q t k
  IsNoted-none noted q t (EventKind.fault (FaultAction.crash n)) e h = h
  IsNoted-none noted q t (EventKind.fault (FaultAction.partition a b)) e h = let k = h.0 in cc
  IsNoted-none noted q t (EventKind.fault FaultAction.heal_all) e h = tt
  IsNoted-none noted q t (EventKind.fault (FaultAction.restart n)) e h = tt
  IsNoted-none noted q t (EventKind.deliver from to msg) e h = tt
  IsNoted-none noted q t (EventKind.timer node tag gen) e h = tt
  IsNoted-none noted q t (EventKind.client_op process index) e h = tt

  abbrev AllNoted : Bool → List (Scheduled M T) → Type 0
  AllNoted noted q = All (λ e. IsNoted noted q e.at e.kind) q

  abbrev Noted : Swarm M T → Type 0
  Noted s = AllNoted s.scheduled_partition s.core.queue

  AllNoted-cons :
      (noted : Bool) (x : Scheduled M T) (q es : List (Scheduled M T))
      → All (λ e. IsNoted noted q e.at e.kind) es
      → All (λ e. IsNoted noted (x ∷ q) e.at e.kind) es
  AllNoted-cons noted x q es h =
      All-map (λ e. IsNoted noted q e.at e.kind) _ es (λ e k. IsNoted-cons noted x q e.at e.kind k)
        h

  swarm_partition-Noted : (n : ℕ) (s : Swarm M T) → Noted s → Noted (swarm_partition n s)
  unfolding swarm_partition schedule_fault enqueue
  swarm_partition-Noted n s h =
      if_intro Noted (leb 2 n) _ _
        (λ _.
          let drawn = (range_u64 s.rng 1 n).1 in
          let (low, high) = range_u64-bounds drawn 100 1000 (omega arith) in
          let cut = (range_u64 s.rng 1 n).0 in
          let split : Scheduled M T = record {
            at = millis (range_u64 drawn 100 1000).0;
            seq = s.core.seq;
            kind =
                EventKind.fault
                  (FaultAction.partition (node_range 0 cut) (node_range cut (n - cut)));
          } in
          (
            (refl, omega arith),
            AllNoted-cons true split s.core.queue s.core.queue (
                All-map (λ e. IsNoted s.scheduled_partition s.core.queue e.at e.kind) _ s.core.queue
                  (λ e k. IsNoted-true s.scheduled_partition s.core.queue e.at e.kind k) h),
          ))
        (λ _. h)

  swarm_crash-Noted : (n : ℕ) (s : Swarm M T) → Noted s → Noted (swarm_crash liveness n s)
  unfolding swarm_crash schedule_fault enqueue
  swarm_crash-Noted n s h =
      let victim = (range_u64 s.rng 0 (max n 1)).0 in
      let first = (range_u64 s.rng 0 (max n 1)).1 in
      let at = millis (range_u64 first 100 1000).0 in
      let drawn = (range_u64 first 100 1000).1 in
      let (low, high) = range_u64-bounds drawn 500 2000 (omega arith) in
      let crash : Scheduled M T = record {
        at = at;
        seq = s.core.seq;
        kind = EventKind.fault (FaultAction.crash victim);
      } in
      let restart : Scheduled M T = record {
        at = at + millis (range_u64 drawn 500 2000).0;
        seq = suc s.core.seq;
        kind = EventKind.fault (FaultAction.restart victim);
      } in
      (
        tt,
        (
          inl (refl, omega arith),
          AllNoted-cons s.scheduled_partition restart (crash ∷ s.core.queue) s.core.queue
              (AllNoted-cons s.scheduled_partition crash s.core.queue s.core.queue h),
        ),
      )

  lower_kinds-Noted :
      (n : ℕ) (ks : List FaultKind) (s : Swarm M T) → Noted s → Noted (lower_kinds liveness n ks s)
  unfolding lower_kinds lower_kind
  lower_kinds-Noted n [] s h = h
  lower_kinds-Noted n (FaultKind.latency a b ∷ ks) s h = lower_kinds-Noted n ks _ h
  lower_kinds-Noted n (FaultKind.drop p ∷ ks) s h = lower_kinds-Noted n ks _ h
  lower_kinds-Noted n (FaultKind.duplicate p ∷ ks) s h = lower_kinds-Noted n ks _ h
  lower_kinds-Noted n (FaultKind.reorder ∷ ks) s h = lower_kinds-Noted n ks _ h
  lower_kinds-Noted n (FaultKind.partitions ∷ ks) s h =
      lower_kinds-Noted n ks (swarm_partition n s) (swarm_partition-Noted n s h)
  lower_kinds-Noted n (FaultKind.crash_restart ∷ ks) s h =
      lower_kinds-Noted n ks (swarm_crash liveness n s) (swarm_crash-Noted n s h)

  abbrev pub AllUndone : List (Scheduled M T) → Type 0
  AllUndone q = All (λ e. IsUndone q e.at e.kind) q

  -- In liveness mode the faults of a swarm, put on an empty timeline, are undone: each crash is
  -- followed by a restart of its node, and each partition by a healing of the network.
  pub lower_swarm-undone :
      (kinds : List FaultKind) (n : ℕ) (model : NetworkModel) (core : SchedCore M T) (rng : SimRng)
      → core.queue ≡ []
      → AllUndone (lower_swarm kinds liveness n model core rng).1.queue
  unfolding lower_swarm schedule_fault enqueue
  lower_swarm-undone kinds n model core rng empty =
      let (enabled, rng') = choose_kinds kinds rng in
      let start : Swarm M T = record {
        model = model;
        core = core;
        rng = rng';
        scheduled_partition = false;
      } in
      let s = lower_kinds liveness n enabled start in
      let noted = lower_kinds-Noted n enabled start (subst (AllNoted false) (sym empty) tt) in
      let (low, high) = range_u64-bounds s.rng 2000 4000 (omega arith) in
      let heal : Scheduled M T = record {
        at = millis (range_u64 s.rng 2000 4000).0;
        seq = s.core.seq;
        kind = EventKind.fault FaultAction.heal_all;
      } in
      if_intro {A = NetworkModel × SchedCore M T} (λ r. AllUndone r.1.queue) s.scheduled_partition _
        _
        (λ _. (
          tt,
          All-map (λ e. IsNoted s.scheduled_partition s.core.queue e.at e.kind) _ s.core.queue
              (λ e k.
                IsNoted-healed s.scheduled_partition heal s.core.queue e.at e.kind refl
                  (omega arith) k)
              noted,
        ))
        (λ none.
          All-map (λ e. IsNoted s.scheduled_partition s.core.queue e.at e.kind) _ s.core.queue
            (λ e k. IsNoted-none s.scheduled_partition s.core.queue e.at e.kind none k) noted)
