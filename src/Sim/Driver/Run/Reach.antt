-- ===== src/Sim/Driver/Run/Reach.antt =====
-- The states that a run goes through, as a step relation: one step for each event that `pop` hands
-- over and the driver handles. An invariant of the timeline holds in all of them.
use propsim.Base.{
  ℕ, zero, suc, max, ◌≡◌, refl, inl, inr, Option, some, List, replicate, Option-cases, subst,
  if_intro, ltb, get_or, [], ◌∷◌, ◌+◌, arith,
}
use propsim.Core.Node.{Node, ClientCodec, millis}
use propsim.Core.Plan.{PlanData, FrozenOp, Seed, NodeDef}
use propsim.Sim.Scheduler.{
  SchedCore, PoppedEvent, EventKind, FaultAction, init, pop, schedule_client_op, schedule_fault,
  closed_for,
}
use propsim.Sim.Faults.Calls.{Posted, nothing, and_then, lower-Posted}
use propsim.Core.Transport.{NetworkModel}
use propsim.Core.Node.{Duration}
use propsim.Sim.Scheduler.Calls.{Calls}
use propsim.Sim.Scheduler.Kept.{Kept, Calls-Kept, open_op-Kept, pop-Kept}
use propsim.Sim.Driver.{Issue, World, pump_one, pump_client_ops, handle, issue_next, init}
use propsim.Sim.Driver.Calls.{Lands, Handled, handle-Handled, dispatch_start-Calls}
use propsim.Sim.Driver.Run.{
  Loop, TypedRun, ran, after_event, snapshot, start_nodes, prepare, enter, resolve_ops,
  run_deterministic,
}
use propsim.Sim.Driver.Run.Rule.{Ended, run-Ended}

module _ (N : Node) (codec : Option (ClientCodec N.Op N.Response)) where
  open N use {State, Msg, Timer, initial, debug}

  pub data Reachable (data' : PlanData) (generated : Option (List FrozenOp)) (seed : Seed)
      : Loop N codec → Type 0 where
    entered :
        (w : World N codec)
        → start_nodes N codec
            (max data'.nodes 1)
            (prepare N codec data' seed, replicate (max data'.nodes 1) (some initial))
          ≡ some w
        → Reachable data' generated seed
            (enter N codec (max data'.nodes 1) (resolve_ops data' generated) w)
    handled :
        (l : Loop N codec) (ev : PoppedEvent Msg Timer) (w : World N codec)
        → Reachable data' generated seed l
        → (pop debug l.issue.core).1 ≡ some ev
        → handle N codec (resolve_ops data' generated) ((pop debug l.issue.core).0, l.nodes) ev
          ≡ some w
        → Reachable data' generated seed (after_event N codec (max data'.nodes 1) l w)

  -- A run that ends is left in a state that its steps reach.
  pub run-Reachable :
      (fuel : ℕ) (data' : PlanData) (def : Option NodeDef) (generated : Option (List FrozenOp))
      (seed : Seed) (r : TypedRun State)
      → run_deterministic N codec fuel data' def generated seed ≡ ran r
      → Ended N codec (Reachable data' generated seed) seed r
  run-Reachable fuel data' def generated seed r h =
      run-Ended N codec (Reachable data' generated seed) data' generated seed handled entered fuel
        def r h

  module _ (Inv : SchedCore Msg Timer → Type 0) (kept : Kept debug Inv) where
    issue_next-Kept :
        (p : ℕ) (q : List ℕ) (s : Issue Msg Timer) → Inv s.core → Inv (issue_next p q s).core
    unfolding issue_next schedule_client_op
    issue_next-Kept p [] s i = i
    issue_next-Kept p (idx ∷ rest) s i =
        Kept.posted kept s.core (s.core.now + millis 1) (EventKind.client_op p idx) refl i

    pump-Kept : (n : ℕ) (s : Issue Msg Timer) → Inv s.core → Inv (pump_client_ops n s).core
    unfolding pump_client_ops pump_one
    pump-Kept zero s i = i
    pump-Kept (suc n) s i =
        let t = pump_client_ops n s in
        if_intro (λ (u : Issue Msg Timer). Inv u.core)
          (ltb (closed_for t.core.history n) (get_or t.scheduled n 0)) t
          (issue_next n (get_or t.per_process n []) t) (λ _. pump-Kept n s i)
          (λ _. issue_next-Kept n (get_or t.per_process n []) t (pump-Kept n s i))

    Handled-Kept :
        (c d : SchedCore Msg Timer) (ev : PoppedEvent Msg Timer)
        → Handled N codec ev c d
        → Inv c
        → Inv d
    Handled-Kept c d (PoppedEvent.client_op process index) o i =
        Calls-Kept debug Inv kept o.calls (open_op-Kept debug Inv kept c process o.f o.v i)
    Handled-Kept c d (PoppedEvent.deliver from to msg) m i = Calls-Kept debug Inv kept m i
    Handled-Kept c d (PoppedEvent.timer node tag) m i = Calls-Kept debug Inv kept m i
    Handled-Kept c d (PoppedEvent.fault rejoined) m i = Calls-Kept debug Inv kept m i

    start_nodes-Kept :
        (n : ℕ) (core : SchedCore Msg Timer) (nodes : List (Option State)) (w : World N codec)
        → Inv core
        → start_nodes N codec n (core, nodes) ≡ some w
        → Inv w.0
    unfolding start_nodes
    start_nodes-Kept zero core nodes w i h =
        let e : core ≡ w.0 = ground arith in subst (λ (x : SchedCore Msg Timer). Inv x) e i
    start_nodes-Kept (suc n) core nodes w i h =
        elim (Option-cases (start_nodes N codec n (core, nodes))) [
          | inl panic ↦ let e = rw (panic, start_nodes) at h in cc
          | inr (w', e) ↦
              let land =
                subst (Lands N codec (Calls debug w'.0)) (rw (e, start_nodes) at h)
                  (dispatch_start-Calls N codec w'.0 w'.1 n) in
              Calls-Kept debug Inv kept land (start_nodes-Kept n core nodes w' i e)
        ]

    -- What the scheduler's calls and `pop` keep, and what holds before the nodes start, holds in
    -- every state of a run.
    pub Reachable-Kept :
        (data' : PlanData) (generated : Option (List FrozenOp)) (seed : Seed) (l : Loop N codec)
        → Inv (prepare N codec data' seed)
        → Reachable data' generated seed l
        → Inv l.issue.core
    unfolding enter after_event snapshot
    Reachable-Kept data' generated seed _ i (entered w started) =
        pump-Kept (max data'.nodes 1) _
          (start_nodes-Kept (max data'.nodes 1) (prepare N codec data' seed) _ w i started)
    Reachable-Kept data' generated seed _ i (handled l ev w r out h) =
        let core = (pop debug l.issue.core).0 in
        let land =
          subst (Lands N codec (Handled N codec ev core)) h
            (handle-Handled N codec (resolve_ops data' generated) core l.nodes ev) in
        pump-Kept (max data'.nodes 1) (record (l.issue) { core = w.0 })
          (Handled-Kept core w.0 ev land
            (pop-Kept debug Inv kept l.issue.core (Reachable-Kept data' generated seed l i r)))

  -- The faults are posted on an empty timeline, and then the model of the network is set.
  pub prepare-holds :
      (Inv : SchedCore Msg Timer → Type 0) (data' : PlanData) (seed : Seed)
      → ((c : SchedCore Msg Timer) → c.queue ≡ [] → Inv c)
      → ((c : SchedCore Msg Timer) (at : Duration) (action : FaultAction)
          → Inv c
          → Inv (schedule_fault c at action))
      → ((c : SchedCore Msg Timer) (model : NetworkModel)
          → Inv c
          → Inv (record c { model = model }))
      → Inv (prepare N codec data' seed)
  unfolding prepare init
  prepare-holds Inv data' seed empty post set =
      set _ _ (posted (lower-Posted _ refl data'.faults _ _ _) (empty _ refl))
    where
      posted : {c d : SchedCore Msg Timer} → Posted c d → Inv c → Inv d
      posted nothing i = i
      posted (and_then at action p later) i = post _ at action (posted p i)
