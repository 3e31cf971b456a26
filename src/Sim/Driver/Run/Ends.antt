-- ===== src/Sim/Driver/Run/Ends.antt =====
-- Every run of nodes that keep to a budget comes to an end: the loop hands over no more events than
-- the queue, the states of the nodes and the ops can pay for.
use propsim.Base.{ℕ, suc, max, ◌+◌, ◌*◌, ◌<◌, Option, some, List, length, replicate}
use propsim.Core.Node.{Node, ClientCodec}
use propsim.Core.Plan.{PlanData, FrozenOp, Seed}
use propsim.Sim.Scheduler.Load.{load}
use propsim.Sim.Ctx.Load.{Budget}
use propsim.Sim.Driver.{World}
use propsim.Sim.Driver.Load.{credits, total, outlay}
use propsim.Sim.Driver.Run.{
  Loop, RunResult, no_executor, out_of_fuel, main_loop, prepare, enter, resolve_ops,
}

-- Neither out of fuel nor refused.

abbrev HasFuel : {S : Type 0} → RunResult S → Type 0
HasFuel out_of_fuel = ⊥
HasFuel no_executor = ⊥
HasFuel _ = Unit {0}

module _ (N : Node) (codec : Option (ClientCodec N.Op N.Response)) where
  open N use {State, Msg, Timer, initial, debug}

  module _ (n : ℕ) (budget : Budget N n) where
    open budget use {weights}

    -- What the loop can still pay for.
    abbrev funds : Loop N codec → ℕ
    funds l = outlay N codec n budget l.issue + credits N codec n budget l.nodes

    -- What a world and the ops can pay for.
    abbrev entry : World N codec → List FrozenOp → ℕ
    entry w ops = total N codec n budget w + length ops * suc weights.of_op

    -- What a run of `data'` can pay for: the faults on its timeline, the nodes that start, and the ops.
    abbrev pub run_funds : PlanData → Seed → List FrozenOp → ℕ
    run_funds data' seed ops =
        load weights (prepare N codec data' seed).queue
        + credits N codec n budget (replicate n (some initial))
        + n * weights.of_start
        + length ops * suc weights.of_op

  -- Enough fuel.
  module _ (fuel : ℕ) (data' : PlanData) (generated : Option (List FrozenOp)) (seed : Seed)
      (budget : Budget N (max data'.nodes 1))
      (enough : run_funds (max data'.nodes 1) budget data' seed (resolve_ops data' generated)
        < fuel) where
    abbrev size : ℕ
    size = max data'.nodes 1

    abbrev ops : List FrozenOp
    ops = resolve_ops data' generated

    abbrev loop : World N codec → RunResult State
    loop w = main_loop N codec fuel size seed ops (enter N codec size ops w)
