-- ===== src/Sim/Driver/Run/Rule.antt =====
-- The rule of a whole run: an invariant of the driver that holds on entry and that every handled
-- event keeps holds where the loop ends, with an empty `pop`.
use propsim.Base.{
  ℕ, zero, suc, max, ◌≡◌, refl, inl, inr, Option, none, some, List, replicate, Option-cases,
}
use propsim.Core.Node.{Node, ClientCodec}
use propsim.Core.Plan.{PlanData, FrozenOp, Seed, NodeDef, state_machine, spawn_each}
use propsim.Sim.Scheduler.{PoppedEvent, pop}
use propsim.Sim.Driver.{World, handle}
use propsim.Sim.Driver.Run.{
  Loop, TypedRun, ran, after_event, finish, main_loop, start_nodes, prepare, enter, resolve_ops,
  run_deterministic,
}

module _ (N : Node) (codec : Option (ClientCodec N.Op N.Response)) where
  open N use {State, Msg, Timer, initial, debug}

  -- Where the loop is left: `pop` gave no event, and the run is finished from there.
  pub record Ended {ℓ} (Inv : Loop N codec → Type ℓ) (seed : Seed) (r : TypedRun State)
      : Type ℓ where
    pub last : Loop N codec
    pub kept : Inv last
    pub popped : (pop debug last.issue.core).1 ≡ none
    pub result :
        r
        ≡ finish N codec seed
            (record last { issue = record (last.issue) { core = (pop debug last.issue.core).0 } })

  module _ {ℓ} (Inv : Loop N codec → Type ℓ) (node_count : ℕ) (seed : Seed) (ops : List FrozenOp)
      (keep : (l : Loop N codec) (ev : PoppedEvent Msg Timer) (w : World N codec)
        → Inv l
        → (pop debug l.issue.core).1 ≡ some ev
        → handle N codec ops ((pop debug l.issue.core).0, l.nodes) ev ≡ some w
        → Inv (after_event N codec node_count l w)) where
    pub main_loop-Ended :
        (fuel : ℕ) (l : Loop N codec) (r : TypedRun State)
        → Inv l
        → main_loop N codec fuel node_count seed ops l ≡ ran r
        → Ended Inv seed r
    unfolding main_loop
    main_loop-Ended zero l r i h = cc
    main_loop-Ended (suc fuel) l r i h = elim (Option-cases (pop debug l.issue.core).1) [
      | inl empty ↦ record {
        last = l;
        kept = i;
        popped = empty;
        result = let e = rw (empty, main_loop) at h in cc;
      }
      | inr (ev, out) ↦
          elim (Option-cases (handle N codec ops ((pop debug l.issue.core).0, l.nodes) ev)) [
            | inl panic ↦ let e = rw (out, panic, main_loop) at h in cc
            | inr (w, handled) ↦
                main_loop-Ended fuel (after_event N codec node_count l w) r
                  (keep l ev w i out handled) (rw (out, handled, main_loop) at h)
          ]
    ]

  module _ {ℓ} (Inv : Loop N codec → Type ℓ) (data' : PlanData) (generated : Option (List FrozenOp))
      (seed : Seed)
      (keep : (l : Loop N codec) (ev : PoppedEvent Msg Timer) (w : World N codec)
        → Inv l
        → (pop debug l.issue.core).1 ≡ some ev
        → handle N codec (resolve_ops data' generated) ((pop debug l.issue.core).0, l.nodes) ev
          ≡ some w
        → Inv (after_event N codec (max data'.nodes 1) l w))
      (begin : (w : World N codec)
        → start_nodes N codec
            (max data'.nodes 1)
            (prepare N codec data' seed, replicate (max data'.nodes 1) (some initial))
          ≡ some w
        → Inv (enter N codec (max data'.nodes 1) (resolve_ops data' generated) w)) where
    started-Ended :
        (fuel : ℕ) (d : NodeDef) (r : TypedRun State)
        → run_deterministic N codec fuel data' (some d) generated seed ≡ ran r
        → Ended Inv seed r
    unfolding run_deterministic
    started-Ended fuel spawn_each r h = cc
    started-Ended fuel state_machine r h =
        elim (Option-cases (
          start_nodes N codec (max data'.nodes 1)
            (prepare N codec data' seed, replicate (max data'.nodes 1) (some initial)))) [
              | inl panic ↦ let e = rw (panic, run_deterministic) at h in cc
              | inr (w, started) ↦
                  main_loop-Ended Inv (max data'.nodes 1) seed (resolve_ops data' generated) keep
                    fuel (enter N codec (max data'.nodes 1) (resolve_ops data' generated) w) r
                    (begin w started) (rw (started, run_deterministic) at h)
            ]

    same_default :
        (fuel : ℕ)
        → run_deterministic N codec fuel data' none generated seed
          ≡ run_deterministic N codec fuel data' (some state_machine) generated seed
    unfolding run_deterministic
    same_default fuel = refl

    pub run-Ended :
        (fuel : ℕ) (def : Option NodeDef) (r : TypedRun State)
        → run_deterministic N codec fuel data' def generated seed ≡ ran r
        → Ended Inv seed r
    run-Ended fuel none r h = started-Ended fuel state_machine r (rw same_default at h)
    run-Ended fuel (some d) r h = started-Ended fuel d r h
