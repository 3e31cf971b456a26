-- ===== src/Sim/Driver/Run/Links.antt =====
-- Links over a whole run: on a network that keeps their order, every message that is delivered is
-- the oldest of its link.
use propsim.Base.{◌≡◌, refl, true, Option, List, arith}
use propsim.Core.Node.{Node, ClientCodec}
use propsim.Core.Plan.{PlanData, FrozenOp, Seed}
use propsim.Sim.Scheduler.{EventKind, pop, schedule_fault}
use propsim.Sim.Scheduler.Fifo.{IsFifo, IsFifo-raised, empty-IsFifo}
use propsim.Sim.Scheduler.Fifo.Delivered.{
  InLinkOrder, InLinkOrder-Kept, FirstOfLink, pop-FirstOfLink, posted-IsFifo,
}
use propsim.Sim.Driver.Run.{Loop, prepare}
use propsim.Sim.Driver.Run.Reach.{Reachable, Reachable-Kept, prepare-holds}

module _ (N : Node) (codec : Option (ClientCodec N.Op N.Response)) where
  open N use {State, Msg, Timer, debug}

  prepare-IsFifo : (data' : PlanData) (seed : Seed) → IsFifo (prepare N codec data' seed)
  unfolding schedule_fault
  prepare-IsFifo data' seed =
      prepare-holds N codec IsFifo data' seed empty-IsFifo
        (λ c at action. posted-IsFifo c at (EventKind.fault action) refl)
        (λ c model. IsFifo-raised c (record c { model = model }) refl refl (λ k. omega arith))

  -- Once the faults are lowered onto a network that keeps the order of each link, every message that
  -- the run then delivers, whatever the nodes and the faults do, was sent before every message of
  -- its link that is still queued.
  pub run-delivers_oldest :
      (data' : PlanData) (generated : Option (List FrozenOp)) (seed : Seed) (l : Loop N codec)
      → (prepare N codec data' seed).model.ordered ≡ true
      → Reachable N codec data' generated seed l
      → FirstOfLink l.issue.core (pop debug l.issue.core)
  run-delivers_oldest data' generated seed l o r =
      let start : InLinkOrder (prepare N codec data' seed) = record {
        ordered = o;
        fifo = prepare-IsFifo data' seed;
      } in
      let i =
        Reachable-Kept N codec InLinkOrder (InLinkOrder-Kept debug) data' generated seed l start
          r in
      pop-FirstOfLink debug l.issue.core i.fifo
