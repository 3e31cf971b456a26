-- ===== src/Sim/Driver/Run/Sequential.antt =====
-- A whole run keeps every process sequential.
use propsim.Base.{
  ℕ, zero, suc, ◌≤◌, ◌<◌, ◌==◌, ◌≡◌, refl, ap, ◌∙◌, subst, inl, inr, false, Option, some, List, [],
  ◌∷◌, arith, max, replicate, length, length-set, length-replicate, ltb, get_or, set, if_intro,
  if◌then◌else◌, Option-cases,
}
use propsim.History.{ProcessId}
use propsim.Core.Node.{Node, ClientCodec}
use propsim.Core.Plan.{PlanData, FrozenOp, Seed, NodeDef}
use propsim.Sim.Scheduler.{
  SchedCore, PoppedEvent, init, pop, schedule_client_op, enqueue, closed_for, tokens,
  force_close_pending,
}
use propsim.Sim.Scheduler.Moves.{close_all-Moves}
use propsim.Sim.Scheduler.Turns.{open_for, status}
use propsim.Sim.Scheduler.Count.{counted}
use propsim.Sim.Scheduler.Sequential.{IsSequential, Moves-IsSequential, open_op-IsSequential}
use propsim.Sim.Scheduler.Sequential.Rounds.{Ready, pop-Ready, force_close_pending-empty}
use propsim.Sim.Scheduler.Calls.{Calls, Calls-Moves}
use propsim.Sim.Faults.Calls.{Posted-Calls, lower-Posted}
use propsim.Sim.Driver.{Issue, World, pump_one, pump_client_ops, issue_next, handle, group_ops}
use propsim.Sim.Driver.Calls.{Lands, Handled, handle-Handled, dispatch_start-Calls}
use propsim.Sim.Driver.Run.{
  Loop, TypedRun, ran, snapshot, after_event, finish, start_nodes, prepare, enter, resolve_ops,
  run_deterministic,
}
use propsim.Sim.Driver.Run.Rule.{run-Ended}

get_or-set :
    (xs : List ℕ) (i j v d : ℕ)
    → i < length xs
    → get_or (set xs i v) j d ≡ (if i == j then v else get_or xs j d)
get_or-set [] i j v d h = absurd (omega arith)
get_or-set (x ∷ xs) zero zero v d h = refl
get_or-set (x ∷ xs) zero (suc j) v d h = ground arith
get_or-set (x ∷ xs) (suc i) zero v d h = ground arith
get_or-set (x ∷ xs) (suc i) (suc j) v d h = ground (arith, get_or-set xs i j v d (omega arith))

get_or-replicate : (n i : ℕ) → ◌≡◌ {A = ℕ} (get_or (replicate n 0) i 0) 0
get_or-replicate zero i = refl
get_or-replicate (suc n) zero = refl
get_or-replicate (suc n) (suc i) = get_or-replicate n i

module _ {M T : Type 0} where
  -- Every process is sequential, with the ops that the driver has scheduled for it.
  abbrev Issued : Issue M T → Type 0
  Issued s = (p : ProcessId) → IsSequential p (get_or s.scheduled p 0) s.core

  issue_next-Issued :
      (q : ℕ) (waiting : List ℕ) (s : Issue M T)
      → q < length s.scheduled
      → get_or s.scheduled q 0 ≤ closed_for s.core.history q
      → Issued s
      → Issued (issue_next q waiting s)
        × (length (issue_next q waiting s).scheduled ≡ length s.scheduled)
  unfolding issue_next schedule_client_op enqueue counted
  issue_next-Issued q [] s b h k = (k, refl)
  issue_next-Issued q (idx ∷ rest) s b h k = (
    λ p.
        let i = k p in
        let scheduled = get_or-set s.scheduled q p (suc (get_or s.scheduled q 0)) 0 b in
        rw scheduled (record {
          alternates = i.alternates;
          issued_once = let j = i.issued_once in ground arith;
          issued_next = let j = i.issued_next in ground arith;
          fresh = i.fresh;
        }),
    length-set s.scheduled q (suc (get_or s.scheduled q 0)),
  )

  -- Pumping keeps the processes sequential, and the number of them.
  abbrev Pumped : ℕ → Issue M T → Type 0
  Pumped n s = Issued s × (length s.scheduled ≡ n)

  pump_one-Pumped : (n q : ℕ) (s : Issue M T) → q < n → Pumped n s → Pumped n (pump_one q s)
  unfolding pump_one
  pump_one-Pumped n q s b (h, e) =
      if_intro (Pumped n) (ltb (closed_for s.core.history q) (get_or s.scheduled q 0)) _ _
        (λ _. (h, e))
        (λ idle.
          let (k, same) =
            issue_next-Issued q (get_or s.per_process q []) s (omega arith) (ground arith) h in
          (k, same ∙ e))

  pump-Pumped : (n k : ℕ) (s : Issue M T) → k ≤ n → Pumped n s → Pumped n (pump_client_ops k s)
  unfolding pump_client_ops
  pump-Pumped n zero s b h = h
  pump-Pumped n (suc k) s b h =
      pump_one-Pumped n k (pump_client_ops k s) (omega arith) (pump-Pumped n k s (omega arith) h)

module _ (N : Node) (codec : Option (ClientCodec N.Op N.Response)) where
  open N use {State, Msg, Timer, initial, debug}

  -- Handling an event keeps a process sequential.
  Handled-IsSequential :
      (p : ProcessId) (issued : ℕ) (c d : SchedCore Msg Timer) (ev : PoppedEvent Msg Timer)
      → Handled N codec ev c d
      → Ready p issued (c, some ev)
      → IsSequential p issued d
  Handled-IsSequential p issued c d (PoppedEvent.client_op process index) o (s, room) =
      Moves-IsSequential p issued (Calls-Moves o.calls)
        (open_op-IsSequential p issued c process o.f o.v room s)
  Handled-IsSequential p issued c d (PoppedEvent.deliver from to msg) m s =
      Moves-IsSequential p issued (Calls-Moves m) s
  Handled-IsSequential p issued c d (PoppedEvent.timer node tag) m s =
      Moves-IsSequential p issued (Calls-Moves m) s
  Handled-IsSequential p issued c d (PoppedEvent.fault rejoined) m s =
      Moves-IsSequential p issued (Calls-Moves m) s

  abbrev InTurn : ℕ → Loop N codec → Type 0
  InTurn n l = Pumped n l.issue

  keep-InTurn :
      (n : ℕ) (ops : List FrozenOp) (l : Loop N codec) (ev : PoppedEvent Msg Timer)
      (w : World N codec)
      → InTurn n l
      → (pop debug l.issue.core).1 ≡ some ev
      → handle N codec ops ((pop debug l.issue.core).0, l.nodes) ev ≡ some w
      → InTurn n (after_event N codec n l w)
  unfolding after_event snapshot
  keep-InTurn n ops l ev w (i, e) out h =
      let core = (pop debug l.issue.core).0 in
      let land =
        subst (Lands N codec (Handled N codec ev core)) h
          (handle-Handled N codec ops core l.nodes ev) in
      let ready = λ (p : ProcessId).
        subst (λ o. Ready p (get_or l.issue.scheduled p 0) (core, o)) out
          (pop-Ready p (get_or l.issue.scheduled p 0) debug l.issue.core (i p)) in
      pump-Pumped n n (record (l.issue) { core = w.0 }) (omega arith)
        (λ p. Handled-IsSequential p (get_or l.issue.scheduled p 0) core w.0 ev land (ready p), e)

  start_nodes-IsSequential :
      (p n : ℕ) (core : SchedCore Msg Timer) (nodes : List (Option State)) (w : World N codec)
      → IsSequential p 0 core
      → start_nodes N codec n (core, nodes) ≡ some w
      → IsSequential p 0 w.0
  unfolding start_nodes
  start_nodes-IsSequential p zero core nodes w t h =
      let e : core ≡ w.0 = ground arith in
      subst (λ (x : SchedCore Msg Timer). IsSequential p 0 x) e t
  start_nodes-IsSequential p (suc n) core nodes w t h =
      elim (Option-cases (start_nodes N codec n (core, nodes))) [
        | inl panic ↦ let e = rw (panic, start_nodes) at h in cc
        | inr (w', e) ↦
            let before = start_nodes-IsSequential p n core nodes w' t e in
            let land =
              subst (Lands N codec (Calls debug w'.0)) (rw (e, start_nodes) at h)
                (dispatch_start-Calls N codec w'.0 w'.1 n) in
            Moves-IsSequential p 0 (Calls-Moves land) before
      ]

  prepare-IsSequential :
      (p : ProcessId) (data' : PlanData) (seed : Seed)
      → IsSequential p 0 (prepare N codec data' seed)
  unfolding prepare init status open_for counted closed_for
  prepare-IsSequential p data' seed =
      Moves-IsSequential p 0
        (Calls-Moves (Posted-Calls debug (lower-Posted _ refl data'.faults _ _ _)))
        (record {
          alternates = refl;
          issued_once = omega arith;
          issued_next = omega arith;
          fresh = tt;
        })

  begin-InTurn :
      (n : ℕ) (ops : List FrozenOp) (w : World N codec)
      → ((p : ProcessId) → IsSequential p 0 w.0)
      → InTurn n (enter N codec n ops w)
  unfolding enter snapshot
  begin-InTurn n ops w s =
      let issue : Issue Msg Timer = record {
        core = w.0;
        per_process = group_ops n 0 ops (replicate n []);
        scheduled = replicate n 0;
      } in
      pump-Pumped n n issue (omega arith)
        (λ p. rw (get_or-replicate n p) (s p), length-replicate n 0)

  -- In a run that ends, the entries of each process alternate between an invoke and its completion,
  -- and every op that was invoked is completed.
  pub run-sequential :
      (fuel : ℕ) (data' : PlanData) (def : Option NodeDef) (generated : Option (List FrozenOp))
      (seed : Seed) (r : TypedRun State) (p : ProcessId)
      → run_deterministic N codec fuel data' def generated seed ≡ ran r
      → status p (some false) r.history ≡ some false
  unfolding finish force_close_pending open_for
  run-sequential fuel data' def generated seed r p h =
      let n = max data'.nodes 1 in
      let ended =
        run-Ended N codec (InTurn n) data' generated seed
          (keep-InTurn n (resolve_ops data' generated))
          (λ w e. begin-InTurn n (resolve_ops data' generated) w (λ q.
            start_nodes-IsSequential q n (prepare N codec data' seed) _ w
              (prepare-IsSequential q data' seed) e))
          fuel def r h in
      let l = ended.last in
      let issued = get_or l.issue.scheduled p 0 in
      let core = (pop debug l.issue.core).0 in
      let s =
        subst (λ o. Ready p issued (core, o)) ended.popped
          (pop-Ready p issued debug l.issue.core (ended.kept.0 p)) in
      let closed = Moves-IsSequential p issued (close_all-Moves core (tokens core.pending_ops)) s in
      rw (ended.result)
        (closed.alternates ∙ ap (λ m. some (ltb 0 (open_for p m))) (force_close_pending-empty core))
