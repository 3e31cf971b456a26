-- ===== src/Sim/Driver/Run/Time.antt =====
-- Virtual time over a whole run: frames and history are in the order of time.
use propsim.Base.{
  ℕ, zero, suc, ◌+◌, ◌≤◌, ◌≡◌, refl, inl, inr, subst, Option, some, List, [], ◌∷◌, ◌++◌, arith, max,
  replicate, ltb, get_or, if_intro, Option-cases,
}
use propsim.Core.Node.{Node, ClientCodec, millis}
use propsim.Core.Plan.{PlanData, FrozenOp, Seed, NodeDef}
use propsim.Sim.Scheduler.{
  SchedCore, PoppedEvent, EventKind, init, pop, open_op, force_close_pending, schedule_client_op,
  closed_for, tokens, record_entry, now_nanos, enqueue,
}
use propsim.Sim.Scheduler.Moves.{Moves-now, close_all-Moves}
use propsim.Sim.Scheduler.Time.{
  IsTimely, Indexed, InOrder, Moves-IsTimely, open_op-IsTimely, enqueue-IsTimely, pop-IsTimely,
}
use propsim.Sim.Scheduler.Calls.{Calls, Calls-Moves}
use propsim.Sim.Faults.Calls.{Posted-Calls, lower-Posted}
use propsim.Sim.Driver.{Issue, World, pump_one, pump_client_ops, handle, group_ops, issue_next}
use propsim.Sim.Driver.Calls.{Lands, Handled, handle-Handled, dispatch_start-Calls}
use propsim.Sim.Driver.Run.{
  Loop, Frames, TypedRun, ran, snapshot, after_event, finish, start_nodes, prepare, enter,
  resolve_ops, run_deterministic,
}
use propsim.Sim.Driver.Run.Rule.{run-Ended}

-- The times of the frames do not fall.

abbrev pub FramesInOrder : {S : Type 0} → ℕ → Frames S → Type 0
FramesInOrder from [] = Unit {0}
FramesInOrder from ((t, nodes) ∷ fs) = (from ≤ t) × FramesInOrder t fs

abbrev last_frame : {S : Type 0} → ℕ → Frames S → ℕ
last_frame from [] = from
last_frame from ((t, nodes) ∷ fs) = last_frame t fs

FramesInOrder-append :
    {S : Type 0} (from : ℕ) (fs : Frames S) (t : ℕ) (nodes : List S)
    → FramesInOrder from fs
    → last_frame from fs ≤ t
    → FramesInOrder from (fs ++ (t, nodes) ∷ [])
FramesInOrder-append from [] t nodes h k = (k, tt)
FramesInOrder-append from ((s, x) ∷ fs) t nodes h k = (h.0, FramesInOrder-append s fs t nodes h.1 k)

last_frame-append :
    {S : Type 0} (from : ℕ) (fs : Frames S) (t : ℕ) (nodes : List S)
    → last_frame from (fs ++ (t, nodes) ∷ []) ≡ t
last_frame-append from [] t nodes = refl
last_frame-append from ((s, x) ∷ fs) t nodes = last_frame-append s fs t nodes

module _ {M T : Type 0} where
  -- Pumping enqueues ops a millisecond ahead.
  abbrev Pumped : ℕ → Issue M T → Type 0
  Pumped now s = IsTimely s.core × (s.core.now ≡ now)

  issue_next-Pumped :
      (p now : ℕ) (q : List ℕ) (s : Issue M T) → Pumped now s → Pumped now (issue_next p q s)
  unfolding issue_next schedule_client_op enqueue
  issue_next-Pumped p now [] s h = h
  issue_next-Pumped p now (idx ∷ rest) s (t, e) = (
    enqueue-IsTimely s.core (s.core.now + millis 1) (EventKind.client_op p idx) (omega arith) t,
    e,
  )

  pump_one-Pumped : (p now : ℕ) (s : Issue M T) → Pumped now s → Pumped now (pump_one p s)
  unfolding pump_one
  pump_one-Pumped p now s h =
      if_intro (Pumped now) (ltb (closed_for s.core.history p) (get_or s.scheduled p 0)) _ _
        (λ _. h) (λ _. issue_next-Pumped p now (get_or s.per_process p []) s h)

  pump-Pumped : (n now : ℕ) (s : Issue M T) → Pumped now s → Pumped now (pump_client_ops n s)
  unfolding pump_client_ops
  pump-Pumped zero now s h = h
  pump-Pumped (suc n) now s h = pump_one-Pumped n now (pump_client_ops n s) (pump-Pumped n now s h)

module _ (N : Node) (codec : Option (ClientCodec N.Op N.Response)) where
  open N use {State, Msg, Timer, initial, debug}

  record InTime (l : Loop N codec) : Type 0 where
    timely : IsTimely l.issue.core
    frames : FramesInOrder 0 l.frames
    last : last_frame 0 l.frames ≤ l.issue.core.now

  -- Handling an event keeps the time and the scheduler timely.
  Handled-IsTimely :
      (c d : SchedCore Msg Timer) (ev : PoppedEvent Msg Timer)
      → Handled N codec ev c d
      → IsTimely c
      → IsTimely d × (d.now ≡ c.now)
  unfolding open_op record_entry
  Handled-IsTimely c d (PoppedEvent.client_op process index) o t = (
    Moves-IsTimely (Calls-Moves o.calls) (open_op-IsTimely c process o.f o.v t),
    Moves-now (Calls-Moves o.calls),
  )
  Handled-IsTimely c d (PoppedEvent.deliver from to msg) m t =
      (Moves-IsTimely (Calls-Moves m) t, Moves-now (Calls-Moves m))
  Handled-IsTimely c d (PoppedEvent.timer node tag) m t =
      (Moves-IsTimely (Calls-Moves m) t, Moves-now (Calls-Moves m))
  Handled-IsTimely c d (PoppedEvent.fault rejoined) m t =
      (Moves-IsTimely (Calls-Moves m) t, Moves-now (Calls-Moves m))

  after_event-InTime :
      (n : ℕ) (l : Loop N codec) (core : SchedCore Msg Timer) (nodes : List (Option State))
      → IsTimely core
      → l.issue.core.now ≤ core.now
      → InTime l
      → InTime (after_event N codec n l (core, nodes))
  unfolding after_event snapshot
  after_event-InTime n l core nodes t later i =
      let issue = record (l.issue) { core = core } in
      let (t', same) = pump-Pumped n core.now issue (t, refl) in
      record {
        timely = t';
        frames =
            FramesInOrder-append 0 l.frames (pump_client_ops n issue).core.now _ i.frames
              (omega (arith, i.last));
        last = rw last_frame-append (omega arith);
      }

  keep-InTime :
      (n : ℕ) (ops : List FrozenOp) (l : Loop N codec) (ev : PoppedEvent Msg Timer)
      (w : World N codec)
      → InTime l
      → (pop debug l.issue.core).1 ≡ some ev
      → handle N codec ops ((pop debug l.issue.core).0, l.nodes) ev ≡ some w
      → InTime (after_event N codec n l w)
  keep-InTime n ops l ev w i out h =
      let (t, later) = pop-IsTimely debug l.issue.core i.timely in
      let land =
        subst (Lands N codec (Handled N codec ev (pop debug l.issue.core).0)) h
          (handle-Handled N codec ops (pop debug l.issue.core).0 l.nodes ev) in
      let (t', same) = Handled-IsTimely (pop debug l.issue.core).0 w.0 ev land t in
      after_event-InTime n l w.0 w.1 t' (omega arith) i

  start_nodes-IsTimely :
      (n : ℕ) (core : SchedCore Msg Timer) (nodes : List (Option State)) (w : World N codec)
      → IsTimely core
      → start_nodes N codec n (core, nodes) ≡ some w
      → IsTimely w.0
  unfolding start_nodes
  start_nodes-IsTimely zero core nodes w t h =
      let e : core ≡ w.0 = ground arith in subst (λ (x : SchedCore Msg Timer). IsTimely x) e t
  start_nodes-IsTimely (suc n) core nodes w t h =
      elim (Option-cases (start_nodes N codec n (core, nodes))) [
        | inl panic ↦ let e = rw (panic, start_nodes) at h in cc
        | inr (w', e) ↦
            let before = start_nodes-IsTimely n core nodes w' t e in
            let land =
              subst (Lands N codec (Calls debug w'.0)) (rw (e, start_nodes) at h)
                (dispatch_start-Calls N codec w'.0 w'.1 n) in
            Moves-IsTimely (Calls-Moves land) before
      ]

  prepare-IsTimely : (data' : PlanData) (seed : Seed) → IsTimely (prepare N codec data' seed)
  unfolding prepare init now_nanos
  prepare-IsTimely data' seed =
      Moves-IsTimely (Calls-Moves (Posted-Calls debug (lower-Posted _ refl data'.faults _ _ _)))
        (record {
          due = tt;
          before_horizon = omega arith;
          indexed = tt;
          in_order = tt;
          last = omega arith;
        })

  begin-InTime :
      (n : ℕ) (ops : List FrozenOp) (w : World N codec)
      → IsTimely w.0
      → InTime (enter N codec n ops w)
  unfolding enter snapshot
  begin-InTime n ops w t =
      let issue : Issue Msg Timer = record {
        core = w.0;
        per_process = group_ops n 0 ops (replicate n []);
        scheduled = replicate n 0;
      } in
      let (t', same) = pump-Pumped n w.0.now issue (t, refl) in
      record { timely = t'; frames = (omega arith, tt); last = omega arith }

  -- In a run that ends, the frames are in the order of virtual time, and the history is numbered
  -- from 0 and stamped by the virtual clock in the order of its entries.
  pub run-InOrder :
      (fuel : ℕ) (data' : PlanData) (def : Option NodeDef) (generated : Option (List FrozenOp))
      (seed : Seed) (r : TypedRun State)
      → run_deterministic N codec fuel data' def generated seed ≡ ran r
      → FramesInOrder 0 r.frames × Indexed 0 r.history × InOrder 0 r.history
  unfolding finish force_close_pending
  run-InOrder fuel data' def generated seed r h =
      let ended =
        run-Ended N codec InTime data' generated seed
          (keep-InTime (max data'.nodes 1) (resolve_ops data' generated))
          (λ w e. begin-InTime (max data'.nodes 1) (resolve_ops data' generated) w (
            start_nodes-IsTimely (max data'.nodes 1) (prepare N codec data' seed) _ w
              (prepare-IsTimely data' seed) e))
          fuel def r h in
      let l = ended.last in
      let core = (pop debug l.issue.core).0 in
      let t = (pop-IsTimely debug l.issue.core ended.kept.timely).0 in
      let t' = Moves-IsTimely (close_all-Moves core (tokens core.pending_ops)) t in
      rw (ended.result) (ended.kept.frames, t'.indexed, t'.in_order)
