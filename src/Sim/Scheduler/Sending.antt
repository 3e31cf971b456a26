-- ===== src/Sim/Scheduler/Sending.antt =====
-- What sending a message keeps: it may draw from the generator, raise the floor of a link and queue
-- deliveries of the message, and nothing else.
use propsim.Base.{ℕ, ◌+◌, not, if_intro, List}
use propsim.Core.Node.{NodeId, Duration}
use propsim.Sim.Rng.{SimRng, chance}
use propsim.Sim.Scheduler.{
  SchedCore, EventKind, enqueue, connected, sample_delay, order_link, enqueue_copies,
  schedule_delivery,
}

module _ {ℓ} {M T : Type 0} (Inv : SchedCore M T → Type ℓ) (from to : NodeId) (msg : M)
    (drawn : (c : SchedCore M T) (rng : SimRng) → Inv c → Inv (record c { rng = rng }))
    (raised : (c : SchedCore M T) (links : List ((ℕ × ℕ) × Duration))
      → Inv c
      → Inv (record c { last_link = links }))
    (queued : (c : SchedCore M T) (at : Duration)
      → Inv c
      → Inv (enqueue c at (EventKind.deliver from to msg))) where
  enqueue_copies-rule :
      (c : SchedCore M T) (at : Duration) → Inv c → Inv (enqueue_copies c from to msg at)
  unfolding enqueue_copies
  enqueue_copies-rule c at i =
      let (dup, rng) = chance c.rng c.model.duplicate in
      let d = record c { rng = rng } in
      let once = queued d at (drawn c rng i) in
      if_intro Inv dup _ (enqueue d at (EventKind.deliver from to msg))
        (λ _. queued (enqueue d at (EventKind.deliver from to msg)) at once) (λ _. once)

  -- An invariant that the three keep for this message is kept by sending it.
  pub schedule_delivery-link : (c : SchedCore M T) → Inv c → Inv (schedule_delivery c from to msg)
  unfolding schedule_delivery order_link
  schedule_delivery-link c i =
      if_intro Inv (not (connected c from to)) c _ (λ _. i)
        λ _.
          let (lost, rng) = chance c.rng c.model.loss in
          let d = record c { rng = rng } in
          if_intro Inv lost d _ (λ _. drawn c rng i)
            λ _.
              let (base, rng') = sample_delay d in
              let e = record d { rng = rng' } in
              let at = d.now + base in
              let ready = drawn d rng' (drawn c rng i) in
              let kept : Inv (order_link e from to at).0 =
                if_intro (λ (p : SchedCore M T × Duration). Inv p.0) c.model.ordered _ (e, at)
                  (λ _. raised e _ ready) (λ _. ready) in
              enqueue_copies-rule (order_link e from to at).0 (order_link e from to at).1 kept

-- The same for any message.
pub schedule_delivery-rule {ℓ} :
    {M T : Type 0} (Inv : SchedCore M T → Type ℓ)
    → ((c : SchedCore M T) (rng : SimRng) → Inv c → Inv (record c { rng = rng }))
    → ((c : SchedCore M T) (links : List ((ℕ × ℕ) × Duration))
        → Inv c
        → Inv (record c { last_link = links }))
    → ((c : SchedCore M T) (at : Duration) (from to : NodeId) (msg : M)
        → Inv c
        → Inv (enqueue c at (EventKind.deliver from to msg)))
    → (c : SchedCore M T) (from to : NodeId) (msg : M) → Inv c
    → Inv (schedule_delivery c from to msg)
schedule_delivery-rule Inv drawn raised queued c from to msg i =
    schedule_delivery-link Inv from to msg drawn raised (λ d at. queued d at from to msg) c i
