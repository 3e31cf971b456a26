-- ===== src/Sim/Scheduler/Moves.antt =====
-- The elementary changes of the scheduler that a callback can make through its context. Every
-- call of `HarnessCtx` is a sequence of them, so an invariant is proved once for each.
use propsim.Base.{
  ℕ, ◌+◌, ◌≤◌, ◌≡◌, refl, ◌∙◌, Bool, true, false, List, [], ◌∷◌, Text, arith, not, if_intro,
}
use propsim.History.{OpKind}
use propsim.History.Values.{Value}
use propsim.Core.Node.{NodeId, OpToken, Duration}
use propsim.Sim.Rng.{SimRng, chance}
use propsim.Sim.Scheduler.{
  SchedCore, EventKind, is_terminal, enqueue, close_op, close_all, connected, sample_delay,
  order_link, enqueue_copies, schedule_delivery, bump_gen, arm_timer, cancel_timer, record_entry,
}

abbrev pub is_client : {M T : Type 0} → EventKind M T → Bool
is_client (EventKind.client_op process index) = true
is_client _ = false

pub data Move {M T : Type 0} (c : SchedCore M T) : SchedCore M T → Type 0 where
  draw : (rng : SimRng) → Move c (record c { rng = rng })
  floor : (links : List ((ℕ × ℕ) × Duration)) → Move c (record c { last_link = links })
  generation : (gens : List ((ℕ × Text) × ℕ)) → Move c (record c { timer_gen = gens })
  post :
      (at : Duration) (kind : EventKind M T)
      → c.now ≤ at
      → is_client kind ≡ false
      → Move c (enqueue c at kind)
  close :
      (token : OpToken) (kind : OpKind) (v : Value)
      → is_terminal kind ≡ true
      → Move c (close_op c token kind v)

pub data Moves {M T : Type 0} (c : SchedCore M T) : SchedCore M T → Type 0 where
  here : Moves c c
  next : {d e : SchedCore M T} → Moves c d → Move d e → Moves c e

module _ {M T : Type 0} where
  pub Moves-trans : {c d e : SchedCore M T} → Moves c d → Moves d e → Moves c e
  Moves-trans m here = m
  Moves-trans m (next n s) = next (Moves-trans m n) s

  pub Move-now : {c d : SchedCore M T} → Move c d → d.now ≡ c.now
  unfolding enqueue close_op record_entry
  Move-now (draw rng) = refl
  Move-now (floor links) = refl
  Move-now (generation gens) = refl
  Move-now (post at kind h k) = refl
  Move-now (close token kind v k) = ground arith

  enqueue_copies-Moves :
      (c : SchedCore M T) (from to : NodeId) (msg : M) (at : Duration)
      → c.now ≤ at
      → Moves c (enqueue_copies c from to msg at)
  unfolding enqueue_copies enqueue
  enqueue_copies-Moves c from to msg at h =
      let drawn = record c { rng = (chance c.rng c.model.duplicate).1 } in
      let once : Moves c (enqueue drawn at (EventKind.deliver from to msg)) =
        next (next here (draw (chance c.rng c.model.duplicate).1))
          (post at (EventKind.deliver from to msg) h refl) in
      if_intro (Moves c) (chance c.rng c.model.duplicate).0 _ _
        (λ _. next once (post at (EventKind.deliver from to msg) h refl)) (λ _. once)

  order_link-Moves :
      (c : SchedCore M T) (from to : NodeId) (at : Duration)
      → c.now ≤ at
      → Moves c (order_link c from to at).0
        × ((order_link c from to at).0.now ≡ c.now)
        × (c.now ≤ (order_link c from to at).1)
  unfolding order_link
  order_link-Moves c from to at h =
      if_intro {A = SchedCore M T × Duration} (λ r. Moves c r.0 × (r.0.now ≡ c.now) × (c.now ≤ r.1))
        c.model.ordered _ _ (λ _. (next here (floor _), refl, omega arith)) (λ _. (here, refl, h))

  pub schedule_delivery-Moves :
      (c : SchedCore M T) (from to : NodeId) (msg : M) → Moves c (schedule_delivery c from to msg)
  unfolding schedule_delivery
  schedule_delivery-Moves c from to msg =
      if_intro (Moves c) (not (connected c from to)) _ _ (λ _. here)
        λ _.
          if_intro (Moves c) (chance c.rng c.model.loss).0 _ _
            (λ _. next here (draw (chance c.rng c.model.loss).1))
            λ _.
              let d = record c { rng = (chance c.rng c.model.loss).1 } in
              let e = record d { rng = (sample_delay d).1 } in
              let base = (sample_delay d).0 in
              let (moves, same, later) = order_link-Moves e from to (c.now + base) (omega arith) in
              Moves-trans
                (Moves-trans
                  (next (next here (draw (chance c.rng c.model.loss).1)) (draw (sample_delay d).1))
                  moves)
                (enqueue_copies-Moves _ from to msg _ (omega arith))

  pub arm_timer-Moves :
      (debug : T → Text) (c : SchedCore M T) (node : NodeId) (tag : T) (after : Duration)
      → Moves c (arm_timer debug c node tag after)
  unfolding arm_timer bump_gen
  arm_timer-Moves debug c node tag after =
      next (next here (generation _))
        (post (c.now + after) (EventKind.timer node tag _) (omega arith) refl)

  pub cancel_timer-Moves :
      (debug : T → Text) (c : SchedCore M T) (node : NodeId) (tag : T)
      → Moves c (cancel_timer debug c node tag)
  unfolding cancel_timer bump_gen
  cancel_timer-Moves debug c node tag = next here (generation _)

  pub close_all-Moves : (c : SchedCore M T) (ks : List OpToken) → Moves c (close_all c ks)
  unfolding close_all
  close_all-Moves c [] = here
  close_all-Moves c (k ∷ ks) =
      Moves-trans (next here (close k OpKind.info Value.nil refl))
        (close_all-Moves (close_op c k OpKind.info Value.nil) ks)

  pub Moves-now : {c d : SchedCore M T} → Moves c d → d.now ≡ c.now
  Moves-now here = refl
  Moves-now (next m s) = Move-now s ∙ Moves-now m
