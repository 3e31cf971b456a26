-- ===== src/Sim/Scheduler/Rule.antt =====
-- The rule of the loop in `pop`: what each round keeps, and what each way out gives, holds of the
-- whole loop. Its fuel, the length of the queue, is never the reason that it ends.
use propsim.Base.{
  ℕ, zero, suc, ◌≤◌, ◌<◌, ◌≡◌, refl, [], ◌∷◌, length, inl, inr, Option, none, some, List, Text,
  arith, leb, leb→le, if_intro, Option-cases,
}
use propsim.Sim.Scheduler.Queue.{Chosen-some}
use propsim.Sim.Scheduler.{
  SchedCore, EventKind, Scheduled, PoppedEvent, take_min, fire, pop_loop, pop,
}

module _ {M T : Type 0} (debug : T → Text) where
  -- The scheduler as it is when the event fires.
  abbrev pub advanced : SchedCore M T → Scheduled M T → List (Scheduled M T) → SchedCore M T
  advanced c ev rest = record c { queue = rest; now = ev.at }

  abbrev pub fired :
      SchedCore M T
      → Scheduled M T
      → List (Scheduled M T)
      → SchedCore M T × Option (PoppedEvent M T)
  fired c ev rest = fire debug (advanced c ev rest) ev.kind

  -- An event that is skipped changes nothing but the queue and the clock.
  fire-skipped :
      (c : SchedCore M T) (kind : EventKind M T)
      → (fire debug c kind).1 ≡ none
      → (fire debug c kind).0 ≡ c
  unfolding fire
  fire-skipped c (EventKind.timer node tag gen) h = refl
  fire-skipped c (EventKind.deliver from to msg) h = refl
  fire-skipped c (EventKind.client_op process index) h = refl
  fire-skipped c (EventKind.fault action) h = cc

  short_queue : (q : List (Scheduled M T)) → length q ≤ 0 → take_min q ≡ none
  unfolding take_min
  short_queue [] n = refl
  short_queue (x ∷ xs) n = absurd (omega arith)

  pub record Rule {ℓ κ} (Inv : SchedCore M T → Type ℓ)
      (Out : SchedCore M T × Option (PoppedEvent M T) → Type κ) : Type (ℓ ⊔ κ) where
    pub drain : (c : SchedCore M T) → Inv c → take_min c.queue ≡ none → Out (c, none)
    pub stop :
        (c : SchedCore M T) (ev : Scheduled M T) (rest : List (Scheduled M T))
        → Inv c
        → take_min c.queue ≡ some (ev, rest)
        → c.horizon ≤ ev.at
        → Out (record c { queue = rest; now = c.horizon }, none)
    pub hand :
        (c : SchedCore M T) (ev : Scheduled M T) (rest : List (Scheduled M T)) (e : PoppedEvent M T)
        → Inv c
        → take_min c.queue ≡ some (ev, rest)
        → ev.at < c.horizon
        → (fired c ev rest).1 ≡ some e
        → Out ((fired c ev rest).0, some e)
    pub skip :
        (c : SchedCore M T) (ev : Scheduled M T) (rest : List (Scheduled M T))
        → Inv c
        → take_min c.queue ≡ some (ev, rest)
        → ev.at < c.horizon
        → (fired c ev rest).1 ≡ none
        → Inv (advanced c ev rest)

  module _ {ℓ κ} (Inv : SchedCore M T → Type ℓ)
      (Out : SchedCore M T × Option (PoppedEvent M T) → Type κ) (rule : Rule Inv Out) where
    pop_loop-Rule :
        (fuel : ℕ) (c : SchedCore M T) → length c.queue ≤ fuel → Inv c → Out (pop_loop debug fuel c)
    unfolding pop_loop
    pop_loop-Rule zero c n i = rule.drain c i (short_queue c.queue n)
    pop_loop-Rule (suc fuel) c n i = elim (Option-cases (take_min c.queue)) [
      | inl empty ↦ rw (empty, pop_loop) (rule.drain c i empty)
      | inr ((ev, rest), taken) ↦
          rw (taken, pop_loop)
            (if_intro Out (leb c.horizon ev.at) _ _
              (λ late. rule.stop c ev rest i taken (leb→le _ _ late))
              λ early.
                let in_time : ev.at < c.horizon = ground arith in
                let fewer = (Chosen-some c.queue ev rest taken).2 in
                elim (Option-cases (fired c ev rest).1) [
                  | inl skipped ↦
                      rw (skipped, fire-skipped (advanced c ev rest) ev.kind skipped)
                        (pop_loop-Rule fuel (advanced c ev rest) (omega arith)
                          (rule.skip c ev rest i taken in_time skipped))
                  | inr (e, out) ↦ rw out (rule.hand c ev rest e i taken in_time out)
                ])
    ]

    pub pop-Rule : (c : SchedCore M T) → Inv c → Out (pop debug c)
    unfolding pop
    pop-Rule c i = pop_loop-Rule (length c.queue) c (omega arith) i
