-- ===== src/Sim/Driver/Run/Timers.antt =====
-- Timers over a whole run: each arming fires once at most, and a cancelled timer does not fire.
use propsim.Base.{ℕ, ◌≤◌, refl, Option, List, Text}
use propsim.Core.Node.{Node, ClientCodec}
use propsim.Core.Plan.{PlanData, FrozenOp, Seed}
use propsim.Sim.Scheduler.{EventKind, pop, schedule_fault}
use propsim.Sim.Scheduler.Kept.{Kept}
use propsim.Sim.Scheduler.Generations.{IsTimed, IsTimed-live, live, remodel-IsTimed}
use propsim.Sim.Scheduler.Generations.Preserved.{IsTimed-Kept}
use propsim.Sim.Scheduler.Timers.{Spent, pop-Spent, empty-IsTimed}
use propsim.Sim.Driver.Run.{Loop, prepare}
use propsim.Sim.Driver.Run.Reach.{Reachable, Reachable-Kept, prepare-holds}

module _ (N : Node) (codec : Option (ClientCodec N.Op N.Response)) where
  open N use {State, Msg, Timer, debug}

  prepare-IsTimed : (data' : PlanData) (seed : Seed) → IsTimed debug (prepare N codec data' seed)
  unfolding schedule_fault
  prepare-IsTimed data' seed =
      prepare-holds N codec (IsTimed debug) data' seed (empty-IsTimed debug)
        (λ c at action. Kept.posted (IsTimed-Kept debug) c at (EventKind.fault action) refl)
        (λ c model. remodel-IsTimed debug c model)

  -- In every state of a run, no more than one queued event of a timer can fire it, and when the
  -- timer is handed to its node none is left: each arming fires once at most.
  pub run-fires_once :
      (data' : PlanData) (generated : Option (List FrozenOp)) (seed : Seed) (l : Loop N codec)
      (k : ℕ × Text)
      → Reachable N codec data' generated seed l
      → (live debug l.issue.core k ≤ 1) × Spent debug (pop debug l.issue.core)
  run-fires_once data' generated seed l k r =
      let i =
        Reachable-Kept N codec (IsTimed debug) (IsTimed-Kept debug) data' generated seed l
          (prepare-IsTimed data' seed) r in
      (IsTimed-live debug l.issue.core k i, pop-Spent debug l.issue.core i)
