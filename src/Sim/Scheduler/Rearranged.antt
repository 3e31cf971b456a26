-- ===== src/Sim/Scheduler/Rearranged.antt =====
-- The queue as a bag: the order in which the heap stores its events does not matter, since no two
-- of them have the same number.
use propsim.Base.{
  ℕ, suc, ◌+◌, ◌≤◌, ◌==◌, ◌≡◌, refl, sym, ap, ◌∙◌, inl, inr, true, false, arith, some, none, Option,
  List, [], ◌∷◌, Bool-cases, subst, not, Text,
}
use propsim.Core.Node.{Duration}
use propsim.Core.Transport.{NetworkModel}
use propsim.Sim.Scheduler.{
  SchedCore, EventKind, Scheduled, earlier, keep_min, take_min, enqueue, arm_timer, cancel_timer,
  bump_gen,
}
use propsim.Sim.Scheduler.Sending.{schedule_delivery-rule}
use propsim.Sim.Scheduler.Kept.{Kept}
use propsim.Sim.Scheduler.Count.{counted, counted-taken}

-- The same events in another order.

pub data Rearranged {A : Type 0} : List A → List A → Type 0 where
  same : (q : List A) → Rearranged q q
  after : (x : A) {p q : List A} → Rearranged p q → Rearranged (x ∷ p) (x ∷ q)
  swap : (x y : A) (q : List A) → Rearranged (x ∷ y ∷ q) (y ∷ x ∷ q)
  trans : {p q r : List A} → Rearranged p q → Rearranged q r → Rearranged p r

module _ {M T : Type 0} where
  -- The number of events with the sequence number.
  abbrev pub numbered : ℕ → List (Scheduled M T) → ℕ
  numbered n = counted (λ e. e.seq == n)

  abbrev pub HasDistinct : List (Scheduled M T) → Type 0
  HasDistinct q = (n : ℕ) → numbered n q ≤ 1

  -- The same event is taken, and the others are the same up to their order.
  abbrev pub SameTaken :
      Option (Scheduled M T × List (Scheduled M T))
      → Option (Scheduled M T × List (Scheduled M T))
      → Type 0
  SameTaken none none = Unit
  SameTaken (some (e, q)) (some (f, r)) = (e ≡ f) × Rearranged q r
  SameTaken _ _ = ⊥

  SameTaken-trans :
      (x y z : Option (Scheduled M T × List (Scheduled M T)))
      → SameTaken x y
      → SameTaken y z
      → SameTaken x z
  SameTaken-trans none none none h k = tt
  SameTaken-trans none none (some z) h k = k
  SameTaken-trans none (some y) z h k = absurd h
  SameTaken-trans (some x) none z h k = absurd h
  SameTaken-trans (some x) (some y) none h k = k
  SameTaken-trans (some (e, q)) (some (f, r)) (some (g, s)) h k = (h.0 ∙ k.0, trans h.1 k.1)

  numbered-Rearranged :
      (n : ℕ) {p q : List (Scheduled M T)} → Rearranged p q → numbered n p ≡ numbered n q
  unfolding counted
  numbered-Rearranged n (same q) = refl
  numbered-Rearranged n (after x d) = omega (arith, numbered-Rearranged n d)
  numbered-Rearranged n (swap x y q) = omega arith
  numbered-Rearranged n (trans d e) = numbered-Rearranged n d ∙ numbered-Rearranged n e

  keep_min-SameTaken :
      (a : Scheduled M T) (x y : Option (Scheduled M T × List (Scheduled M T)))
      → SameTaken x y
      → SameTaken (keep_min a x) (keep_min a y)
  unfolding keep_min
  keep_min-SameTaken a none none h = (refl, same [])
  keep_min-SameTaken a none (some y) h = absurd h
  keep_min-SameTaken a (some x) none h = absurd h
  keep_min-SameTaken a (some (u, q)) (some (v, r)) h = elim (Bool-cases (earlier u a)) [
    | inl less ↦
        let less' : earlier v a ≡ true = ap (λ w. earlier w a) (sym (h.0)) ∙ less in
        rw (less, less') (h.0, after a (h.1))
    | inr more ↦
        let more' : earlier v a ≡ false = ap (λ w. earlier w a) (sym (h.0)) ∙ more in
        rw (more, more') (refl, subst (λ w. Rearranged (u ∷ q) (w ∷ r)) (h.0) (after u (h.1)))
  ]

  SameTaken-same : (x : Option (Scheduled M T × List (Scheduled M T))) → SameTaken x x
  SameTaken-same none = tt
  SameTaken-same (some (e, q)) = (refl, same q)

  -- Of two events with different numbers exactly one is the earlier.
  earlier-swap : (a b : Scheduled M T) → (a.seq == b.seq) ≡ false → earlier a b ≡ not (earlier b a)
  unfolding earlier
  earlier-swap a b h = ground (arith, h)

  -- The least of two, of which one is before the other.
  earlier-between :
      (a b m : Scheduled M T)
      → earlier m a ≡ true
      → earlier m b ≡ false
      → (a.seq == b.seq) ≡ false
      → (earlier b a ≡ true) × (earlier a b ≡ false)
  unfolding earlier
  earlier-between a b m h k d = (ground (arith, h, k, d), ground (arith, h, k, d))

  keep_min-swap :
      (a b : Scheduled M T) (o : Option (Scheduled M T × List (Scheduled M T)))
      → (a.seq == b.seq) ≡ false
      → SameTaken (keep_min a (keep_min b o)) (keep_min b (keep_min a o))
  unfolding keep_min
  keep_min-swap a b none d = elim (Bool-cases (earlier b a)) [
    | inl less ↦
        let more : earlier a b ≡ false = earlier-swap a b d ∙ ap not less in
        rw (less, more) (refl, same (a ∷ []))
    | inr more ↦
        let less : earlier a b ≡ true = earlier-swap a b d ∙ ap not more in
        rw (less, more) (refl, same (b ∷ []))
  ]
  keep_min-swap a b (some (m, r)) d = elim (Bool-cases (earlier m a)) [
    | inl first ↦ elim (Bool-cases (earlier m b)) [
      | inl first' ↦ rw (first, first', first) (refl, swap a b r)
      | inr later ↦
          let (less, more) = earlier-between a b m first later d in
          rw (first, later, less) (refl, swap a m r)
    ]
    | inr later ↦ elim (Bool-cases (earlier m b)) [
      | inl first ↦
          let d' : (b.seq == a.seq) ≡ false = ground (arith, d) in
          let (less, more) = earlier-between b a m first later d' in
          rw (first, later, less) (refl, swap m b r)
      | inr later' ↦ elim (Bool-cases (earlier b a)) [
        | inl less ↦
            let more : earlier a b ≡ false = earlier-swap a b d ∙ ap not less in
            rw (later, later', less, more) (refl, same (a ∷ m ∷ r))
        | inr more ↦
            let less : earlier a b ≡ true = earlier-swap a b d ∙ ap not more in
            rw (later, later', less, more) (refl, same (b ∷ m ∷ r))
      ]
    ]
  ]

  first-differ :
      (a b : Scheduled M T) (q : List (Scheduled M T))
      → HasDistinct (a ∷ b ∷ q)
      → (a.seq == b.seq) ≡ false
  unfolding counted
  first-differ a b q h = let few = h (a.seq) in ground (arith, few)

  HasDistinct-rest :
      (a : Scheduled M T) (q : List (Scheduled M T)) → HasDistinct (a ∷ q) → HasDistinct q
  unfolding counted
  HasDistinct-rest a q h n = omega (arith, h n)

  -- Whatever the order in which the queue is stored, the heap pops the same event and leaves the
  -- same others, if no two events have the same sequence number.
  pub take_min-Rearranged :
      {p q : List (Scheduled M T)}
      → HasDistinct p
      → Rearranged p q
      → SameTaken (take_min p) (take_min q)
  unfolding take_min
  take_min-Rearranged h (same q) = SameTaken-same (take_min q)
  take_min-Rearranged h (after x {p} {q} d) =
      keep_min-SameTaken x (take_min p) (take_min q)
        (take_min-Rearranged (HasDistinct-rest x p h) d)
  take_min-Rearranged h (swap x y q) = keep_min-swap x y (take_min q) (first-differ x y q h)
  take_min-Rearranged h (trans {p} {q} {r} d e) =
      SameTaken-trans (take_min p) (take_min q) (take_min r) (take_min-Rearranged h d)
        (take_min-Rearranged (λ n. subst (λ k. k ≤ 1) (numbered-Rearranged n d) (h n)) e)

  -- The numbers given so far are below the next one, each of them given once.
  pub record IsNumbered (c : SchedCore M T) : Type 0 where
    pub distinct : HasDistinct c.queue
    pub fresh : (k : ℕ) → numbered (c.seq + k) c.queue ≡ 0

  same-IsNumbered :
      (c d : SchedCore M T) → d.queue ≡ c.queue → d.seq ≡ c.seq → IsNumbered c → IsNumbered d
  same-IsNumbered c d q s h = record {
    distinct = λ n. rw q (h.distinct n);
    fresh = λ k. rw (q, s) (h.fresh k);
  }

  enqueue-IsNumbered :
      (c : SchedCore M T) (at : Duration) (kind : EventKind M T)
      → IsNumbered c
      → IsNumbered (enqueue c at kind)
  unfolding enqueue counted
  enqueue-IsNumbered c at kind h = record {
    distinct = λ n. elim (Bool-cases (c.seq == n)) [
      | inl new ↦
          let it : c.seq + 0 ≡ n = ground (arith, new) in
          let clear = ap (λ m. numbered m c.queue) (sym it) ∙ h.fresh 0 in
          ground (arith, new, clear)
      | inr old ↦ let few = h.distinct n in ground (arith, old, few)
    ];
    fresh = λ k.
        let it : c.seq + suc k ≡ suc c.seq + k = omega arith in
        let clear = ap (λ m. numbered m c.queue) (sym it) ∙ h.fresh (suc k) in
        ground (arith, clear);
  }

  pub IsNumbered-Kept : (debug : T → Text) → Kept debug IsNumbered
  unfolding arm_timer cancel_timer bump_gen
  IsNumbered-Kept debug = record {
    same = λ c d s. same-IsNumbered c d s.queue s.seq;
    sent =
        schedule_delivery-rule IsNumbered (λ c rng. same-IsNumbered c _ refl refl)
          (λ c links. same-IsNumbered c _ refl refl)
          (λ c at from to msg. enqueue-IsNumbered c at (EventKind.deliver from to msg));
    armed = λ c node tag after h.
        enqueue-IsNumbered _ (c.now + after) _ (same-IsNumbered c _ refl refl h);
    cancelled = λ c node tag. same-IsNumbered c _ refl refl;
    posted = λ c at kind p. enqueue-IsNumbered c at kind;
    taken = λ c ev rest taken h. record {
      distinct = λ n.
          let split = counted-taken (λ e. e.seq == n) c.queue ev rest taken in
          omega (arith, h.distinct n);
      fresh = λ k.
          let split = counted-taken (λ e. e.seq == (c.seq + k)) c.queue ev rest taken in
          omega (arith, h.fresh k);
    };
  }

  pub empty-IsNumbered : (c : SchedCore M T) → c.queue ≡ [] → IsNumbered c
  unfolding counted
  empty-IsNumbered c e = record { distinct = λ n. rw e (omega arith); fresh = λ k. rw e refl }

  pub remodel-IsNumbered :
      (c : SchedCore M T) (model : NetworkModel)
      → IsNumbered c
      → IsNumbered (record c { model = model })
  remodel-IsNumbered c model = same-IsNumbered c _ refl refl
