-- ===== src/Sim/Driver/Run/Queue.antt =====
-- The queue over a whole run: the order in which the heap stores its events has no part in it.
use propsim.Base.{refl, Option, List}
use propsim.Core.Node.{Node, ClientCodec}
use propsim.Core.Plan.{PlanData, FrozenOp, Seed}
use propsim.Sim.Scheduler.{Scheduled, EventKind, take_min, schedule_fault}
use propsim.Sim.Scheduler.Kept.{Kept}
use propsim.Sim.Scheduler.Rearranged.{
  Rearranged, SameTaken, take_min-Rearranged, IsNumbered, IsNumbered-Kept, empty-IsNumbered,
  remodel-IsNumbered,
}
use propsim.Sim.Driver.Run.{Loop, prepare}
use propsim.Sim.Driver.Run.Reach.{Reachable, Reachable-Kept, prepare-holds}

module _ (N : Node) (codec : Option (ClientCodec N.Op N.Response)) where
  open N use {State, Msg, Timer, debug}

  prepare-IsNumbered : (data' : PlanData) (seed : Seed) → IsNumbered (prepare N codec data' seed)
  unfolding schedule_fault
  prepare-IsNumbered data' seed =
      prepare-holds N codec IsNumbered data' seed empty-IsNumbered
        (λ c at action. Kept.posted (IsNumbered-Kept debug) c at (EventKind.fault action) refl)
        remodel-IsNumbered

  -- In every state of a run, the heap pops the same event, and leaves the same others, in whatever
  -- order it stores them: no two events have the same sequence number.
  pub run-Rearranged :
      (data' : PlanData) (generated : Option (List FrozenOp)) (seed : Seed) (l : Loop N codec)
      (stored : List (Scheduled Msg Timer))
      → Reachable N codec data' generated seed l
      → Rearranged l.issue.core.queue stored
      → SameTaken (take_min l.issue.core.queue) (take_min stored)
  run-Rearranged data' generated seed l stored r d =
      let i =
        Reachable-Kept N codec IsNumbered (IsNumbered-Kept debug) data' generated seed l
          (prepare-IsNumbered data' seed) r in
      take_min-Rearranged (IsNumbered.distinct i) d
