-- ===== src/Sim/Scheduler/Time.antt =====
-- Virtual time: the clock of the scheduler never turns back, and the history is stamped in order.
use propsim.Base.{
  ℕ, suc, ◌+◌, ◌≤◌, ◌<◌, ◌≡◌, refl, inl, inr, false, some, List, [], ◌∷◌, ◌++◌, arith, All, All-map,
  length, Option-cases, Text,
}
use propsim.History.{History, OpEntry, OpKind, Function, Clock, virtual_nanos}
use propsim.History.Values.{Value, ℤ, pos}
use propsim.Core.Node.{OpToken, Duration}
use propsim.Sim.Scheduler.{
  SchedCore, Scheduled, earlier, take_min, now_nanos, record_entry, open_op, close_op, enqueue,
  apply_fault, fire, pop, FaultAction, EventKind, victims,
}
use propsim.Sim.Scheduler.Moves.{
  Move, Moves, draw, floor, generation, post, close, here, next, Moves-now, close_all-Moves,
}
use propsim.Sim.Scheduler.Queue.{Chosen-some, All-taken}
use propsim.Base.{if◌then◌else◌}
use propsim.Sim.Scheduler.Rule.{Rule, pop-Rule, advanced}
use propsim.Base.Maps.{find, remove, contains}
use propsim.Sim.Scheduler.{victims}

-- The entries from position `i` on carry their position.

abbrev pub Indexed : ℕ → History → Type 0
Indexed i [] = Unit {0}
Indexed i (e ∷ h) = (e.index ≡ i) × Indexed (suc i) h

abbrev pub stamp : OpEntry → ℤ
stamp e = e.time.nanos

abbrev pub nanos_of : ℤ → ℕ
nanos_of (pos n) = n
nanos_of _ = 0

-- Stamped by the virtual clock, never before `from`.
abbrev pub InOrder : ℕ → History → Type 0
InOrder from [] = Unit {0}
InOrder from (e ∷ h) =
    (e.time.clock ≡ Clock.virtual)
    × (from ≤ nanos_of e.time.nanos)
    × InOrder (nanos_of e.time.nanos) h

abbrev pub last_stamp : ℕ → History → ℕ
last_stamp from [] = from
last_stamp from (e ∷ h) = last_stamp (nanos_of e.time.nanos) h

pub record Timely {M T : Type 0} (now horizon : ℕ) (queue : List (Scheduled M T)) (h : History)
    : Type 0 where
  pub due : All (λ (e : Scheduled M T). now ≤ e.at) queue
  pub before_horizon : now ≤ horizon
  pub indexed : Indexed 0 h
  pub in_order : InOrder 0 h
  pub last : last_stamp 0 h ≤ nanos_of (now_nanos now)

-- No event is overdue, the clock is within the horizon, and the history is stamped in order.
abbrev pub IsTimely : {M T : Type 0} → SchedCore M T → Type 0
IsTimely c = Timely c.now c.horizon c.queue c.history

Indexed-append :
    (i : ℕ) (h : History) (e : OpEntry)
    → Indexed i h
    → e.index ≡ i + length h
    → Indexed i (h ++ e ∷ [])
Indexed-append i [] e k p = (omega arith, tt)
Indexed-append i (x ∷ h) e k p = (k.0, Indexed-append (suc i) h e k.1 (omega arith))

InOrder-append :
    (from : ℕ) (h : History) (e : OpEntry)
    → InOrder from h
    → e.time.clock ≡ Clock.virtual
    → last_stamp from h ≤ nanos_of e.time.nanos
    → InOrder from (h ++ e ∷ [])
InOrder-append from [] e k p q = (p, q, tt)
InOrder-append from (x ∷ h) e k p q = (k.0, k.1, InOrder-append (nanos_of x.time.nanos) h e k.2 p q)

last_stamp-append :
    (from : ℕ) (h : History) (e : OpEntry) → last_stamp from (h ++ e ∷ []) ≡ nanos_of e.time.nanos
last_stamp-append from [] e = refl
last_stamp-append from (x ∷ h) e = last_stamp-append (nanos_of x.time.nanos) h e

module _ {M T : Type 0} where
  not_earlier : (x y : Scheduled M T) → earlier x y ≡ false → y.at ≤ x.at
  unfolding earlier
  not_earlier x y h = ground arith

  record_entry-IsTimely :
      (c : SchedCore M T) (kind : OpKind) (p : ℕ) (f : Function) (v : Value)
      → IsTimely c
      → IsTimely (record_entry c kind p f v)
  unfolding record_entry virtual_nanos now_nanos
  record_entry-IsTimely c kind p f v t = record {
    due = t.due;
    before_horizon = t.before_horizon;
    indexed = Indexed-append 0 c.history _ t.indexed (omega arith);
    in_order = InOrder-append 0 c.history _ t.in_order refl t.last;
    last = rw last_stamp-append (omega arith);
  }

  pub close_op-IsTimely :
      (c : SchedCore M T) (token : OpToken) (kind : OpKind) (v : Value)
      → IsTimely c
      → IsTimely (close_op c token kind v)
  unfolding close_op
  close_op-IsTimely c token kind v t = elim (Option-cases (find token c.pending_ops)) [
    | inl gone ↦ rw (gone, close_op) t
    | inr (p, found) ↦
        rw (found, close_op)
          (record_entry-IsTimely (record c { pending_ops = remove token c.pending_ops }) kind
            p.process p.f v t)
  ]

  pub open_op-IsTimely :
      (c : SchedCore M T) (p : ℕ) (f : Function) (v : Value)
      → IsTimely c
      → IsTimely (open_op c p f v).0
  unfolding open_op
  open_op-IsTimely c p f v t = record_entry-IsTimely c OpKind.invoke p f v t

  pub enqueue-IsTimely :
      (c : SchedCore M T) (at : Duration) (kind : EventKind M T)
      → c.now ≤ at
      → IsTimely c
      → IsTimely (enqueue c at kind)
  unfolding enqueue
  enqueue-IsTimely c at kind h t = record {
    due = (h, t.due);
    before_horizon = t.before_horizon;
    indexed = t.indexed;
    in_order = t.in_order;
    last = t.last;
  }

  Move-IsTimely : {c d : SchedCore M T} → Move c d → IsTimely c → IsTimely d
  Move-IsTimely (draw rng) t = t
  Move-IsTimely (floor links) t = t
  Move-IsTimely (generation gens) t = t
  Move-IsTimely {c} (post at kind h k) t = enqueue-IsTimely c at kind h t
  Move-IsTimely {c} (close token kind v k) t = close_op-IsTimely c token kind v t

  pub Moves-IsTimely : {c d : SchedCore M T} → Moves c d → IsTimely c → IsTimely d
  Moves-IsTimely here t = t
  Moves-IsTimely (next m s) t = Move-IsTimely s (Moves-IsTimely m t)

  fire-IsTimely :
      (debug : T → Text) (c : SchedCore M T) (kind : EventKind M T)
      → IsTimely c
      → IsTimely (fire debug c kind).0 × ((fire debug c kind).0.now ≡ c.now)
  unfolding fire apply_fault
  fire-IsTimely debug c (EventKind.timer node tag gen) t = (t, refl)
  fire-IsTimely debug c (EventKind.deliver from to msg) t = (t, refl)
  fire-IsTimely debug c (EventKind.client_op process index) t = (t, refl)
  fire-IsTimely debug c (EventKind.fault (FaultAction.partition a b)) t = (t, refl)
  fire-IsTimely debug c (EventKind.fault FaultAction.heal_all) t = (t, refl)
  fire-IsTimely debug c (EventKind.fault (FaultAction.restart n)) t = (t, refl)
  fire-IsTimely debug c (EventKind.fault (FaultAction.crash n)) t =
      let d = record c {
        crashed = if contains n c.crashed then c.crashed else c.crashed ++ n ∷ [];
      } in
      let moves = close_all-Moves d (victims n d.pending_ops) in
      (Moves-IsTimely moves t, Moves-now moves)

  -- The event that is taken off is not overdue.
  taken_due :
      (c : SchedCore M T) (ev : Scheduled M T) (rest : List (Scheduled M T))
      → take_min c.queue ≡ some (ev, rest)
      → IsTimely c
      → c.now ≤ ev.at
  taken_due c ev rest e t = (All-taken (λ y. c.now ≤ y.at) c.queue ev rest e t.due).0

  -- Taking the first event off the queue moves the clock to it, or to the horizon.
  advance-IsTimely :
      (c : SchedCore M T) (ev : Scheduled M T) (rest : List (Scheduled M T)) (at : Duration)
      → take_min c.queue ≡ some (ev, rest)
      → c.now ≤ at
      → at ≤ ev.at
      → at ≤ c.horizon
      → IsTimely c
      → IsTimely (record c { queue = rest; now = at })
  unfolding now_nanos
  advance-IsTimely c ev rest at e h k l t = record {
    due =
        All-map (λ y. earlier y ev ≡ false) (λ y. at ≤ y.at) rest (later_at)
          (Chosen-some c.queue ev rest e).1;
    before_horizon = l;
    indexed = t.indexed;
    in_order = t.in_order;
    last = ground (arith, t.last);
  }
    where
      later_at : (y : Scheduled M T) → earlier y ev ≡ false → at ≤ y.at
      later_at y n = ground (arith, not_earlier y ev n)

  -- What holds from time `from` on, through the loop of `pop`.
  abbrev Since : ℕ → SchedCore M T → Type 0
  Since from c = IsTimely c × (from ≤ c.now)

  time_rule : (debug : T → Text) (from : ℕ) → Rule debug (Since from) (λ r. Since from r.0)
  time_rule debug from = record {
    drain = λ c i empty. i;
    stop = λ c ev rest i taken late.
        let now = (i.0).before_horizon in
        (advance-IsTimely c ev rest c.horizon taken now late (omega arith) i.0, omega arith);
    hand = λ c ev rest e i taken early out.
        let (moved, later) = passed c ev rest i taken early in
        let (timely, same) = fire-IsTimely debug (advanced debug c ev rest) ev.kind moved in
        (timely, omega arith);
    skip = λ c ev rest i taken early out. passed c ev rest i taken early;
  }
    where
      passed :
          (c : SchedCore M T) (ev : Scheduled M T) (rest : List (Scheduled M T))
          → Since from c
          → take_min c.queue ≡ some (ev, rest)
          → ev.at < c.horizon
          → Since from (advanced debug c ev rest)
      passed c ev rest (t, since) taken early =
          let due = taken_due c ev rest taken t in
          (advance-IsTimely c ev rest ev.at taken due (omega arith) (omega arith) t, omega arith)

  -- `pop` keeps the scheduler timely, and the clock never turns back.
  pub pop-IsTimely :
      (debug : T → Text) (c : SchedCore M T)
      → IsTimely c
      → IsTimely (pop debug c).0 × (c.now ≤ (pop debug c).0.now)
  pop-IsTimely debug c t =
      pop-Rule debug (Since c.now) (λ r. Since c.now r.0) (time_rule debug c.now) c (t, omega arith)
