-- ===== src/Sim/Driver/Run/Safe.antt =====
-- The indices of a run, and the contract of its nodes.
use propsim.Base.{
  ℕ, zero, suc, max, ◌≤◌, ◌≡◌, ◌≢◌, refl, inl, inr, Option, none, some, List, [], arith, replicate,
  length, length-replicate, All, All-replicate, Option-cases, subst,
}
use propsim.Core.Node.{Node, ClientCodec}
use propsim.Core.Plan.{PlanData, FrozenOp, Seed, NodeDef, state_machine, spawn_each}
use propsim.Sim.Scheduler.{init, pop}
use propsim.Sim.Scheduler.Addressed.{IsAddressed, same-IsAddressed, pop-IsFired, IsPoppedIn}
use propsim.Sim.Ctx.Addressed.{Contract}
use propsim.Sim.Faults.Addressed.{AreFaultsIn, lower-IsAddressed}
use propsim.Sim.Driver.{World}
use propsim.Sim.Driver.Issuing.{IsIssuing, group_ops-AreIssued, pump-IsIssuing}
use propsim.Sim.Driver.Addressed.{IsSlot, IsSafe, Succeeds, handle-Succeeds, start-Succeeds}
use propsim.Sim.Driver.Run.{
  Loop, RunResult, out_of_bounds, after_event, snapshot, main_loop, start_nodes, prepare, enter,
  resolve_ops, run_deterministic,
}

-- Any result but the panic of an index.

abbrev InBounds : {S : Type 0} → RunResult S → Type 0
InBounds out_of_bounds = ⊥
InBounds _ = Unit {0}

module _ (N : Node) (codec : Option (ClientCodec N.Op N.Response)) (n : ℕ) (some_node : 1 ≤ n)
    (contract : Contract N n) (ops : List FrozenOp) where
  open N use {State, Msg, Timer, initial, debug}

  abbrev SafeWorld : World N codec → Type 0
  SafeWorld w = IsSafe N codec n some_node contract (length ops) w

  record IsSafeLoop (l : Loop N codec) : Type 0 where
    issuing : IsIssuing n (length ops) contract.IsMsg contract.IsTag l.issue
    slots : length l.nodes ≡ n
    states : All (IsSlot N codec n some_node contract (length ops)) l.nodes

  after_event-IsSafeLoop :
      (l : Loop N codec) (w : World N codec)
      → IsSafeLoop l
      → SafeWorld w
      → IsSafeLoop (after_event N codec n l w)
  unfolding after_event snapshot
  after_event-IsSafeLoop l w i safe = record {
    issuing =
        pump-IsIssuing n (length ops) contract.IsMsg contract.IsTag n
          (record (l.issue) { core = w.0 })
          (record { core = safe.core; queues = i.issuing.queues });
    slots = safe.slots;
    states = safe.states;
  }

  main_loop-InBounds :
      (fuel : ℕ) (seed : Seed) (l : Loop N codec)
      → IsSafeLoop l
      → InBounds (main_loop N codec fuel n seed ops l)
  unfolding main_loop
  main_loop-InBounds zero seed l i = tt
  main_loop-InBounds (suc fuel) seed l i =
      let (core, popped) =
        pop-IsFired n (length ops) contract.IsMsg contract.IsTag debug l.issue.core
          i.issuing.core in
      elim (Option-cases (pop debug l.issue.core).1) [
        | inl empty ↦ rw (empty, main_loop) tt
        | inr (ev, out) ↦
            let (w, handled, safe) =
              handle-Succeeds N codec n some_node contract (length ops) ops
                ((pop debug l.issue.core).0, l.nodes) ev refl
                (subst (IsPoppedIn n (length ops) contract.IsMsg contract.IsTag) out popped)
                (record { core = core; slots = i.slots; states = i.states }) in
            rw (out, handled, main_loop)
              (main_loop-InBounds fuel seed (after_event N codec n l w)
                (after_event-IsSafeLoop l w i safe))
      ]

  enter-IsSafeLoop : (w : World N codec) → SafeWorld w → IsSafeLoop (enter N codec n ops w)
  unfolding enter snapshot
  enter-IsSafeLoop w safe = record {
    issuing = pump-IsIssuing n (length ops) contract.IsMsg contract.IsTag n _ (record {
      core = safe.core;
      queues =
          group_ops-AreIssued n 0 (length ops) ops (replicate n []) (omega arith)
            (All-replicate _ n [] tt);
    });
    slots = safe.slots;
    states = safe.states;
  }

  start_nodes-Succeeds :
      (k : ℕ) (w : World N codec)
      → k ≤ n
      → SafeWorld w
      → Succeeds N codec n some_node contract (length ops) (start_nodes N codec k w)
  unfolding start_nodes
  start_nodes-Succeeds zero w l i = (w, refl, i)
  start_nodes-Succeeds (suc k) w l i =
      let (w', e, safe) = start_nodes-Succeeds k w (omega arith) i in
      let (w'', e', safe') =
        start-Succeeds N codec n some_node contract (length ops) w' k (omega arith) safe in
      (w'', rw (e, start_nodes) e', safe')

module _ (N : Node) (codec : Option (ClientCodec N.Op N.Response)) where
  open N use {State, Msg, Timer, initial}

  prepare-IsAddressed :
      (data' : PlanData) (seed : Seed) (contract : Contract N (max data'.nodes 1)) (ops : ℕ)
      → AreFaultsIn (max data'.nodes 1) data'.faults
      → IsAddressed
          (max data'.nodes 1)
          ops
          contract.IsMsg
          contract.IsTag
          (prepare N codec data' seed)
  unfolding prepare init
  prepare-IsAddressed data' seed contract ops h =
      same-IsAddressed (max data'.nodes 1) ops contract.IsMsg contract.IsTag _ _ refl refl (
        lower-IsAddressed (max data'.nodes 1) ops (omega arith) contract.IsMsg contract.IsTag
          data'.faults _ _ _ h (record { queued = tt; counted = refl }))

  module _ (fuel : ℕ) (data' : PlanData) (generated : Option (List FrozenOp)) (seed : Seed)
      (contract : Contract N (max data'.nodes 1))
      (faults : AreFaultsIn (max data'.nodes 1) data'.faults) where
    abbrev ops : List FrozenOp
    ops = resolve_ops data' generated

    started : Succeeds N codec (max data'.nodes 1) (omega arith) contract (length ops) (
        start_nodes N codec
          (max data'.nodes 1)
          (prepare N codec data' seed, replicate (max data'.nodes 1) (some initial)))
    started =
        start_nodes-Succeeds N codec (max data'.nodes 1) (omega arith) contract ops
          (max data'.nodes 1) _ (omega arith)
          (record {
            core = prepare-IsAddressed data' seed contract (length ops) faults;
            slots = length-replicate (max data'.nodes 1) (some initial);
            states =
                All-replicate
                  (IsSlot N codec (max data'.nodes 1) (omega arith) contract (length ops))
                  (max data'.nodes 1) (some initial) contract.initial;
          })

    run-InBounds :
        (def : Option NodeDef) → InBounds (run_deterministic N codec fuel data' def generated seed)
    unfolding run_deterministic
    run-InBounds (some spawn_each) = tt
    run-InBounds none =
        let (w, e, safe) = started in
        rw (run_deterministic, e)
          (main_loop-InBounds N codec (max data'.nodes 1) (omega arith) contract ops fuel seed _
            (enter-IsSafeLoop N codec (max data'.nodes 1) (omega arith) contract ops w safe))
    run-InBounds (some state_machine) =
        let (w, e, safe) = started in
        rw (run_deterministic, e)
          (main_loop-InBounds N codec (max data'.nodes 1) (omega arith) contract ops fuel seed _
            (enter-IsSafeLoop N codec (max data'.nodes 1) (omega arith) contract ops w safe))

  -- If the nodes keep a contract of the cluster, and a script of faults starts again only nodes of
  -- the cluster, then every index into the nodes and the ops of a run is in bounds, however much fuel
  -- it has.
  pub run-in_bounds :
      (fuel : ℕ) (data' : PlanData) (def : Option NodeDef) (generated : Option (List FrozenOp))
      (seed : Seed)
      → Contract N (max data'.nodes 1)
      → AreFaultsIn (max data'.nodes 1) data'.faults
      → run_deterministic N codec fuel data' def generated seed ≢ out_of_bounds
  run-in_bounds fuel data' def generated seed contract h e =
      subst InBounds e (run-InBounds fuel data' generated seed contract h def)
