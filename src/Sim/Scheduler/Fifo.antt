-- ===== src/Sim/Scheduler/Fifo.antt =====
-- Links that keep the order of messages: `schedule_delivery` under `NetworkModel::ordered`.
pub mod Delivered
use propsim.Base.{
  ltb→lt, ℕ, ◌≤◌, ◌<◌, ◌+◌, ◌≡◌, refl, sym, ap, ◌∙◌, subst, inl, inr, Bool-cases, Bool, true, false,
  not, ltb, if_intro, max, arith, some, List, [], ◌∷◌, Mem, All,
}
use mathlib.Core.List.Perm
use mathlib.Core.List.{mem-cons_self, mem-cons_of_mem, not-mem-nil, eq-or-mem_of_mem-cons}
use mathlib.Core.Logic.Or
use mathlib.Core.HLevel.{⊥_prop}
use native.Mathlib.Bridge.{le_prop}
use propsim.Base.Maps.{link_keys, pair_beq, pair_beq_iff, lookup, insert, lookup-insert}
use propsim.Core.Node.{NodeId, Duration}
use propsim.Sim.Rng.{chance}
use propsim.Sim.Scheduler.{
  SchedCore, Scheduled, EventKind, or_zero, enqueue, connected, sample_delay, order_link,
  enqueue_copies, schedule_delivery, earlier, take_min,
}
use propsim.Sim.Scheduler.Queue.{Chosen-some}

module _ {M T : Type 0} where
  -- Whether an event is the delivery of a message on the link.
  abbrev pub on_link : ℕ × ℕ → EventKind M T → Bool
  on_link k (EventKind.deliver from to msg) = pair_beq k (from, to)
  on_link k _ = false

  -- The time before which nothing more is delivered on the link.
  abbrev pub floor : SchedCore M T → ℕ × ℕ → Duration
  floor c k = or_zero (lookup link_keys k c.last_link)

  -- The queued messages of each link are due in the order in which they were sent, and none is due
  -- after the floor of its link.
  pub record IsFifo (c : SchedCore M T) : Type 0 where
    pub numbered : (x : Scheduled M T) → Mem x c.queue → x.seq < c.seq
    pub below_floor :
        (k : ℕ × ℕ) (x : Scheduled M T) → Mem x c.queue → on_link k x.kind ≡ true → x.at ≤ floor c k
    pub in_turn :
        (k : ℕ × ℕ) (x y : Scheduled M T)
        → Mem x c.queue
        → Mem y c.queue
        → on_link k x.kind ≡ true
        → on_link k y.kind ≡ true
        → x.seq < y.seq
        → x.at ≤ y.at

  -- Only the queue, the next number and the floors matter, and a floor may rise.
  pub IsFifo-raised :
      (c d : SchedCore M T)
      → d.queue ≡ c.queue
      → d.seq ≡ c.seq
      → ((k : ℕ × ℕ) → floor c k ≤ floor d k)
      → IsFifo c
      → IsFifo d
  IsFifo-raised c d q s up h = record {
    numbered = λ x m. let k = IsFifo.numbered h x (subst (Mem x) q m) in omega (arith, k, s);
    below_floor = λ k x m l. omega (arith, IsFifo.below_floor h k x (subst (Mem x) q m) l, up k);
    in_turn = λ k x y m n. IsFifo.in_turn h k x y (subst (Mem x) q m) (subst (Mem y) q n);
  }

  -- A message is queued at the floor of its link.
  pub enqueue-IsFifo :
      (c : SchedCore M T) (at : Duration) (kind : EventKind M T)
      → ((k : ℕ × ℕ) → on_link k kind ≡ true → floor c k ≡ at)
      → IsFifo c
      → IsFifo (enqueue c at kind)
  unfolding enqueue
  enqueue-IsFifo c at kind top h = record {
    numbered = λ x m.
        Or.elim le_prop (eq-or-mem_of_mem-cons m) (λ e. omega (arith, ap (λ z. z.seq) e))
          (λ m'. omega (arith, IsFifo.numbered h x m'));
    below_floor = λ k x m l.
        Or.elim le_prop (eq-or-mem_of_mem-cons m)
          (λ e. omega (arith, ap (λ z. z.at) e, top k (sym (ap (λ z. on_link k z.kind) e) ∙ l)))
          (λ m'. IsFifo.below_floor h k x m' l);
    in_turn = λ k x y m n l l' less.
        Or.elim le_prop (eq-or-mem_of_mem-cons m)
          (λ e.
            Or.elim le_prop (eq-or-mem_of_mem-cons n)
              (λ e'. omega (arith, less, ap (λ z. z.seq) e, ap (λ z. z.seq) e'))
              (λ n'. absurd (omega (arith, less, ap (λ z. z.seq) e, IsFifo.numbered h y n'))))
          (λ m'.
            Or.elim le_prop (eq-or-mem_of_mem-cons n)
              (λ e'. omega (
                arith,
                ap (λ z. z.at) e',
                top k (sym (ap (λ z. on_link k z.kind) e') ∙ l'),
                IsFifo.below_floor h k x m' l,
              ))
              (λ n'. IsFifo.in_turn h k x y m' n' l l' less));
  }

  raised :
      (from to : NodeId) (at : Duration) (c : SchedCore M T) (k : ℕ × ℕ)
      → floor c k
        ≤ or_zero (
            lookup link_keys k (
              insert link_keys
                (from, to)
                (max at (or_zero (lookup link_keys (from, to) c.last_link)))
                c.last_link))
  raised from to at c k =
      let top = max at (or_zero (lookup link_keys (from, to) c.last_link)) in
      rw (lookup-insert link_keys (from, to) k top c.last_link) (
        if_intro (λ o. floor c k ≤ or_zero o) (pair_beq k (from, to)) (some top)
          (lookup link_keys k c.last_link)
          (λ e. omega (arith, ap (floor c) ((pair_beq_iff k (from, to)).0 e))) (λ e. omega arith))

  -- The floor of the link rises to the time of the message; the others stay.
  order_link-IsFifo :
      (c : SchedCore M T) (from to : NodeId) (at : Duration)
      → c.model.ordered ≡ true
      → IsFifo c
      → IsFifo (order_link c from to at).0
        × (floor (order_link c from to at).0 (from, to) ≡ (order_link c from to at).1)
  unfolding order_link
  order_link-IsFifo c from to at o h =
      let top = max at (or_zero (lookup link_keys (from, to) c.last_link)) in
      let d = record c { last_link = insert link_keys (from, to) top c.last_link } in
      let self : pair_beq (from, to) (from, to) ≡ true =
        (pair_beq_iff (from, to) (from, to)).1 refl in
      if_intro (λ (p : SchedCore M T × Duration). IsFifo p.0 × (floor p.0 (from, to) ≡ p.1))
        c.model.ordered (d, top) (c, at)
        (λ _. (
          IsFifo-raised c d refl refl (λ k. raised from to at c k) h,
          ap or_zero (lookup-insert link_keys (from, to) (from, to) top c.last_link)
              ∙ (rw self refl),
        ))
        (λ free. let bad : true ≡ false = sym o ∙ free in absurd (cc))

  enqueue_copies-IsFifo :
      (c : SchedCore M T) (from to : NodeId) (msg : M) (at : Duration)
      → floor c (from, to) ≡ at
      → IsFifo c
      → IsFifo (enqueue_copies c from to msg at)
  unfolding enqueue_copies enqueue
  enqueue_copies-IsFifo c from to msg at top h =
      let (dup, rng) = chance c.rng c.model.duplicate in
      let kind = EventKind.deliver from to msg in
      let c' = record c { rng = rng } in
      let on_top : (k : ℕ × ℕ) → on_link k kind ≡ true → floor c' k ≡ at =
        λ k l. ap (floor c) ((pair_beq_iff k (from, to)).0 l) ∙ top in
      let once =
        enqueue-IsFifo c' at kind on_top (IsFifo-raised c c' refl refl (λ k. omega arith) h) in
      if_intro IsFifo dup (enqueue (enqueue c' at kind) at kind) (enqueue c' at kind)
        (λ _. enqueue-IsFifo (enqueue c' at kind) at kind on_top once) λ _. once

  -- On a network that keeps the order of each link, a sent message leaves the queue in the order of
  -- the links, whether it is lost, cut off, delivered once or delivered twice.
  pub schedule_delivery-IsFifo :
      (c : SchedCore M T) (from to : NodeId) (msg : M)
      → c.model.ordered ≡ true
      → IsFifo c
      → IsFifo (schedule_delivery c from to msg)
  unfolding schedule_delivery
  schedule_delivery-IsFifo c from to msg o h =
      if_intro IsFifo (not (connected c from to)) c _ (λ _. h)
        λ _.
          let (lost, rng) = chance c.rng c.model.loss in
          let d = record c { rng = rng } in
          let fifo = IsFifo-raised c d refl refl (λ k. omega arith) h in
          if_intro IsFifo lost d _ (λ _. fifo)
            λ _.
              let (base, rng') = sample_delay d in
              let e = record d { rng = rng' } in
              let (ordered, top) =
                order_link-IsFifo e from to (d.now + base) o
                  (IsFifo-raised d e refl refl (λ k. omega arith) fifo) in
              enqueue_copies-IsFifo (order_link e from to (d.now + base)).0 from to msg
                (order_link e from to (d.now + base)).1 top ordered

  -- No event of the rest is earlier.
  not_earlier :
      (ev y : Scheduled M T) (rest : List (Scheduled M T))
      → All (λ z. earlier z ev ≡ false) rest
      → earlier y ev ≡ true
      → Mem y rest
      → ⊥
  not_earlier ev y [] a e m = not-mem-nil m
  not_earlier ev y (z ∷ rest) a e m =
      Or.elim ⊥_prop (eq-or-mem_of_mem-cons m)
        (λ same. let bad : true ≡ false = sym e ∙ ap (λ w. earlier w ev) same ∙ a.0 in cc)
        (λ m'. not_earlier ev y rest a.1 e m')

  pub oldest :
      (c : SchedCore M T) (ev : Scheduled M T) (rest : List (Scheduled M T)) (k : ℕ × ℕ)
      (y : Scheduled M T)
      → IsFifo c
      → take_min c.queue ≡ some (ev, rest)
      → on_link k ev.kind ≡ true
      → Mem y rest
      → on_link k y.kind ≡ true
      → ev.seq ≤ y.seq
  unfolding earlier
  oldest c ev rest k y h e l m l' =
      let (perm, least, len) = Chosen-some c.queue ev rest e in
      let mine = (Perm.mem_iff perm).1 mem-cons_self in
      let other = (Perm.mem_iff perm).1 (mem-cons_of_mem ev m) in
      elim (Bool-cases (ltb y.seq ev.seq)) [
        | inr after ↦ ground (arith, after)
        | inl less ↦
            let sooner : y.at ≤ ev.at =
              IsFifo.in_turn h k y ev other mine l' l (ltb→lt y.seq ev.seq less) in
            let before : earlier y ev ≡ true = ground (arith, sooner, less) in
            absurd (not_earlier ev y rest least before m)
      ]

  pub taken-IsFifo :
      (c : SchedCore M T) (ev : Scheduled M T) (rest : List (Scheduled M T))
      → take_min c.queue ≡ some (ev, rest)
      → IsFifo c
      → IsFifo (record c { queue = rest })
  taken-IsFifo c ev rest e h =
      let (perm, least, len) = Chosen-some c.queue ev rest e in
      let kept =
        λ (x : Scheduled M T) (n : Mem x rest). (Perm.mem_iff perm).1 (mem-cons_of_mem ev n) in
      record {
        numbered = λ x n. IsFifo.numbered h x (kept x n);
        below_floor = λ k x n. IsFifo.below_floor h k x (kept x n);
        in_turn = λ k x z n n'. IsFifo.in_turn h k x z (kept x n) (kept z n');
      }

  -- On a queue in the order of the links, the event that `take_min` splits off was sent before every
  -- other queued message of its link, and what is left is still in that order.
  pub take_min-oldest :
      (c : SchedCore M T) (ev : Scheduled M T) (rest : List (Scheduled M T)) (k : ℕ × ℕ)
      (y : Scheduled M T)
      → IsFifo c
      → take_min c.queue ≡ some (ev, rest)
      → on_link k ev.kind ≡ true
      → Mem y rest
      → on_link k y.kind ≡ true
      → (ev.seq ≤ y.seq) × IsFifo (record c { queue = rest })
  take_min-oldest c ev rest k y h e l m l' =
      (oldest c ev rest k y h e l m l', taken-IsFifo c ev rest e h)

  -- No event is queued yet.
  pub empty-IsFifo : (c : SchedCore M T) → c.queue ≡ [] → IsFifo c
  empty-IsFifo c e = record {
    numbered = λ x m. absurd (not-mem-nil (subst (Mem x) e m));
    below_floor = λ k x m l. absurd (not-mem-nil (subst (Mem x) e m));
    in_turn = λ k x y m n l l' less. absurd (not-mem-nil (subst (Mem x) e m));
  }
