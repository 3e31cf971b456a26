-- ===== src/Sim/Scheduler/Addressed.antt =====
-- The queued events are addressed to nodes and ops that there are: what the scheduler keeps.
use propsim.Base.{
  ℕ, zero, suc, ◌<◌, ◌≤◌, ◌≡◌, refl, sym, ◌∙◌, subst, inl, inr, not, ◌&&◌, Option, none, some, List,
  [], ◌∷◌, Text, arith, All, All-append, if_intro, Option-cases, ◌==◌,
}
use propsim.Base.Maps.{find, contains}
use propsim.History.{OpKind, Function, ProcessId}
use propsim.History.Values.{Value}
use propsim.Core.Node.{NodeId, OpToken, Duration}
use propsim.Sim.Scheduler.{
  SchedCore, Scheduled, EventKind, FaultAction, PoppedEvent, take_min, others_below, peers, enqueue,
  schedule_delivery, arm_timer, cancel_timer, bump_gen, close_op, close_all, record_entry, open_op,
  apply_fault, fire, pop, timer_is_current,
}
use propsim.Sim.Scheduler.Queue.{All-taken}
use propsim.Sim.Scheduler.Sending.{schedule_delivery-link}
use propsim.Sim.Scheduler.Rule.{pop-Rule, advanced}

-- A node that is to be started again is one of the `n` nodes.

abbrev pub IsFaultIn : ℕ → FaultAction → Type 0
IsFaultIn n (FaultAction.restart k) = k < n
IsFaultIn n _ = Unit {0}

module _ {M T : Type 0} (n ops : ℕ) (IsMsg : M → Type 0) (IsTag : T → Type 0) where
  -- An event between the `n` nodes, with a message or a tag that they may handle, or for one of
  -- the ops.
  abbrev pub IsEventIn : EventKind M T → Type 0
  IsEventIn (EventKind.deliver from to msg) = (from < n) × (to < n) × IsMsg msg
  IsEventIn (EventKind.timer node tag gen) = (node < n) × IsTag tag
  IsEventIn (EventKind.client_op process index) = index < ops
  IsEventIn (EventKind.fault action) = IsFaultIn n action

  abbrev pub IsPoppedIn : Option (PoppedEvent M T) → Type 0
  IsPoppedIn none = Unit {0}
  IsPoppedIn (some (PoppedEvent.deliver from to msg)) = (from < n) × (to < n) × IsMsg msg
  IsPoppedIn (some (PoppedEvent.timer node tag)) = (node < n) × IsTag tag
  IsPoppedIn (some (PoppedEvent.client_op process index)) = index < ops
  IsPoppedIn (some (PoppedEvent.fault none)) = Unit {0}
  IsPoppedIn (some (PoppedEvent.fault (some k))) = k < n

  pub record IsAddressed (c : SchedCore M T) : Type 0 where
    pub queued : All (λ (e : Scheduled M T). IsEventIn e.kind) c.queue
    pub counted : c.node_count ≡ n

  pub same-IsAddressed :
      (c d : SchedCore M T)
      → d.queue ≡ c.queue
      → d.node_count ≡ c.node_count
      → IsAddressed c
      → IsAddressed d
  same-IsAddressed c d q k i = record {
    queued = subst (λ x. All (λ (e : Scheduled M T). IsEventIn e.kind) x) (sym q) i.queued;
    counted = k ∙ i.counted;
  }

  pub enqueue-IsAddressed :
      (c : SchedCore M T) (at : Duration) (kind : EventKind M T)
      → IsEventIn kind
      → IsAddressed c
      → IsAddressed (enqueue c at kind)
  unfolding enqueue
  enqueue-IsAddressed c at kind h i = record { queued = (h, i.queued); counted = i.counted }

  pub schedule_delivery-IsAddressed :
      (c : SchedCore M T) (from to : NodeId) (msg : M)
      → from < n
      → to < n
      → IsMsg msg
      → IsAddressed c
      → IsAddressed (schedule_delivery c from to msg)
  schedule_delivery-IsAddressed c from to msg f t m i =
      schedule_delivery-link IsAddressed from to msg (λ d rng. same-IsAddressed d _ refl refl)
        (λ d links. same-IsAddressed d _ refl refl)
        (λ d at. enqueue-IsAddressed d at (EventKind.deliver from to msg) (f, t, m)) c i

  others_below-All : (k : ℕ) (me : NodeId) → k ≤ n → All (λ to. to < n) (others_below k me)
  unfolding others_below
  others_below-All zero me h = tt
  others_below-All (suc k) me h =
      All-append _ (others_below k me) _ (others_below-All k me (omega arith)) (
        if_intro (λ (xs : List NodeId). All (λ to. to < n) xs) (k == me) [] (k ∷ []) (λ _. tt)
          (λ _. (omega arith, tt)))

  pub peers-All :
      (c : SchedCore M T) (me : NodeId) → IsAddressed c → All (λ to. to < n) (peers c me)
  unfolding peers
  peers-All c me i = others_below-All c.node_count me (let k = i.counted in omega arith)

  pub arm_timer-IsAddressed :
      (debug : T → Text) (c : SchedCore M T) (node : NodeId) (tag : T) (after : Duration)
      → node < n
      → IsTag tag
      → IsAddressed c
      → IsAddressed (arm_timer debug c node tag after)
  unfolding arm_timer bump_gen
  arm_timer-IsAddressed debug c node tag after h t i =
      enqueue-IsAddressed _ _ _ (h, t) (same-IsAddressed c _ refl refl i)

  pub cancel_timer-IsAddressed :
      (debug : T → Text) (c : SchedCore M T) (node : NodeId) (tag : T)
      → IsAddressed c
      → IsAddressed (cancel_timer debug c node tag)
  unfolding cancel_timer bump_gen
  cancel_timer-IsAddressed debug c node tag i = same-IsAddressed c _ refl refl i

  pub close_op-IsAddressed :
      (c : SchedCore M T) (token : OpToken) (kind : OpKind) (v : Value)
      → IsAddressed c
      → IsAddressed (close_op c token kind v)
  unfolding close_op record_entry
  close_op-IsAddressed c token kind v i = elim (Option-cases (find token c.pending_ops)) [
    | inl missing ↦ rw (missing, close_op) i
    | inr (p, found) ↦ rw (found, close_op) (same-IsAddressed c _ refl refl i)
  ]

  pub open_op-IsAddressed :
      (c : SchedCore M T) (process : ProcessId) (f : Function) (v : Value)
      → IsAddressed c
      → IsAddressed (open_op c process f v).0
  unfolding open_op record_entry
  open_op-IsAddressed c process f v i = same-IsAddressed c _ refl refl i

  close_all-IsAddressed :
      (c : SchedCore M T) (ks : List OpToken) → IsAddressed c → IsAddressed (close_all c ks)
  unfolding close_all
  close_all-IsAddressed c [] i = i
  close_all-IsAddressed c (k ∷ ks) i =
      close_all-IsAddressed (close_op c k OpKind.info Value.nil) ks
        (close_op-IsAddressed c k OpKind.info Value.nil i)

  -- What is handed over, and the scheduler that is left.
  abbrev IsFired : SchedCore M T × Option (PoppedEvent M T) → Type 0
  IsFired r = IsAddressed r.0 × IsPoppedIn r.1

  fire-IsFired :
      (debug : T → Text) (c : SchedCore M T) (kind : EventKind M T)
      → IsEventIn kind
      → IsAddressed c
      → IsFired (fire debug c kind)
  unfolding fire apply_fault
  fire-IsFired debug c (EventKind.timer node tag gen) h i = (
    i,
    if_intro IsPoppedIn (timer_is_current debug c node tag gen && not (contains node c.crashed)) _
        none (λ _. h) (λ _. tt),
  )
  fire-IsFired debug c (EventKind.deliver from to msg) h i =
      (i, if_intro IsPoppedIn (not (contains to c.crashed)) _ none (λ _. h) (λ _. tt))
  fire-IsFired debug c (EventKind.client_op process index) h i = (i, h)
  fire-IsFired debug c (EventKind.fault (FaultAction.partition a b)) h i =
      (same-IsAddressed c _ refl refl i, tt)
  fire-IsFired debug c (EventKind.fault FaultAction.heal_all) h i =
      (same-IsAddressed c _ refl refl i, tt)
  fire-IsFired debug c (EventKind.fault (FaultAction.crash k)) h i =
      (close_all-IsAddressed _ _ (same-IsAddressed c _ refl refl i), tt)
  fire-IsFired debug c (EventKind.fault (FaultAction.restart k)) h i =
      (same-IsAddressed c _ refl refl i, h)

  pub pop-IsFired : (debug : T → Text) (c : SchedCore M T) → IsAddressed c → IsFired (pop debug c)
  pop-IsFired debug c i =
      pop-Rule debug IsAddressed IsFired
        (record {
          drain = λ d i' empty. (i', tt);
          stop = λ d ev rest i' taken late. ((left d ev rest d.horizon i' taken).1, tt);
          hand = λ d ev rest e i' taken early out.
              (let (here, others) = left d ev rest ev.at i' taken in
                let (kept, popped) =
                  fire-IsFired debug (advanced debug d ev rest) ev.kind here others in
                (kept, subst IsPoppedIn out popped));
          skip = λ d ev rest i' taken early out. (left d ev rest ev.at i' taken).1;
        })
        c i
    where
      left :
          (d : SchedCore M T) (ev : Scheduled M T) (rest : List (Scheduled M T)) (now : Duration)
          → IsAddressed d
          → take_min d.queue ≡ some (ev, rest)
          → IsEventIn ev.kind × IsAddressed (record d { queue = rest; now = now })
      left d ev rest now i' taken =
          let (here, others) =
            All-taken (λ (e : Scheduled M T). IsEventIn e.kind) d.queue ev rest taken i'.queued in
          (here, record { queued = others; counted = i'.counted })
