-- ===== src/Sim/Driver/Run/Replay.antt =====
-- What a run takes from a replayed scenario: `TestPlan::replay` and the lowering of the faults.
use propsim.Base.{ℕ, ◌≡◌, refl, ap, ◌∙◌, Option, none, some, List, max, replicate}
use propsim.Core.Node.{Node, ClientCodec}
use propsim.Core.Plan.{
  PlanData, FrozenOp, Scenario, Seed, NodeDef, state_machine, spawn_each, replay_with,
}
use propsim.Sim.Driver.{run_horizon}
use propsim.Sim.Driver.Run.{
  RunResult, out_of_bounds, start_nodes, prepare, resolve_ops, main_loop, enter, run_deterministic,
}
use propsim.Sim.Scheduler.{SchedCore}

ops_same :
    (data' : PlanData) (generated generated' : Option (List FrozenOp)) (sc sc' : Scenario)
    → sc.ops ≡ sc'.ops
    → resolve_ops (replay_with data' sc) generated ≡ resolve_ops (replay_with data' sc') generated'
unfolding resolve_ops replay_with
ops_same data' generated generated' sc sc' e = e

module _ (N : Node) (codec : Option (ClientCodec N.Op N.Response)) where
  open N use {State, Msg, Timer, initial}

  -- The scheduler sees of a scenario only the horizon that it sets.
  prepare-replay_with :
      (data' : PlanData) (sc sc' : Scenario) (seed : Seed)
      → run_horizon (replay_with data' sc) ≡ run_horizon (replay_with data' sc')
      → prepare N codec (replay_with data' sc) seed ≡ prepare N codec (replay_with data' sc') seed
  unfolding prepare replay_with
  prepare-replay_with data' sc sc' seed h = rw h refl

  -- What a run does with the scheduler and the ops that it is given.
  abbrev started : ℕ → ℕ → Seed → SchedCore Msg Timer → List FrozenOp → RunResult State
  started fuel n seed core ops = elim (start_nodes N codec n (core, replicate n (some initial))) [
    | none ↦ out_of_bounds
    | some w ↦ main_loop N codec fuel n seed ops (enter N codec n ops w)
  ]

  started-same :
      (fuel n : ℕ) (seed : Seed) (core core' : SchedCore Msg Timer) (ops ops' : List FrozenOp)
      → core ≡ core'
      → ops ≡ ops'
      → started fuel n seed core ops ≡ started fuel n seed core' ops'
  started-same fuel n seed core core' ops ops' e h =
      ap (λ c. started fuel n seed c ops) e ∙ ap (started fuel n seed core') h

  -- A run of a plan that replays a scenario does not depend on what the workload generates, and
  -- depends on the faults of the scenario only through the horizon: the faults that happen are those
  -- of the plan. So two scenarios of the same ops and the same horizon give the same run, whatever
  -- their faults.
  pub run-replays_ops :
      (fuel : ℕ) (data' : PlanData) (def : Option NodeDef)
      (generated generated' : Option (List FrozenOp)) (seed : Seed) (sc sc' : Scenario)
      → sc.ops ≡ sc'.ops
      → run_horizon (replay_with data' sc) ≡ run_horizon (replay_with data' sc')
      → run_deterministic N codec fuel (replay_with data' sc) def generated seed
        ≡ run_deterministic N codec fuel (replay_with data' sc') def generated' seed
  unfolding run_deterministic replay_with
  run-replays_ops fuel data' (some spawn_each) generated generated' seed sc sc' e h = refl
  run-replays_ops fuel data' (some state_machine) generated generated' seed sc sc' e h =
      started-same fuel (max data'.nodes 1) seed _ _ _ _ (prepare-replay_with data' sc sc' seed h)
        (ops_same data' generated generated' sc sc' e)
  run-replays_ops fuel data' none generated generated' seed sc sc' e h =
      started-same fuel (max data'.nodes 1) seed _ _ _ _ (prepare-replay_with data' sc sc' seed h)
        (ops_same data' generated generated' sc sc' e)
