-- ===== src/Sim/Scheduler/Calls.antt =====
-- The calls of the scheduler between two events: what a callback may ask of it through its context,
-- and the posting of a fault. Every callback is a sequence of them, so an invariant is proved once
-- for each.
use propsim.Base.{◌≤◌, ◌≡◌, refl, true, Text}
use propsim.History.{OpKind}
use propsim.History.Values.{Value}
use propsim.Core.Node.{NodeId, OpToken, Duration}
use propsim.Sim.Rng.{SimRng}
use propsim.Sim.Scheduler.{
  SchedCore, FaultAction, EventKind, is_terminal, close_op, schedule_delivery, arm_timer,
  cancel_timer, schedule_fault,
}
use propsim.Sim.Scheduler.Moves.{
  Moves, draw as draw_move, close as close_move, post, here as no_move, next as next_move,
  Moves-trans, schedule_delivery-Moves, arm_timer-Moves, cancel_timer-Moves,
}

pub data Call {M T : Type 0} (debug : T → Text) (c : SchedCore M T) : SchedCore M T → Type 0 where
  draw : (rng : SimRng) → Call debug c (record c { rng = rng })
  send : (from to : NodeId) (msg : M) → Call debug c (schedule_delivery c from to msg)
  arm :
      (node : NodeId) (tag : T) (after : Duration) → Call debug c (arm_timer debug c node tag after)
  cancel : (node : NodeId) (tag : T) → Call debug c (cancel_timer debug c node tag)
  close :
      (token : OpToken) (kind : OpKind) (v : Value)
      → is_terminal kind ≡ true
      → Call debug c (close_op c token kind v)
  fault :
      (at : Duration) (action : FaultAction)
      → c.now ≤ at
      → Call debug c (schedule_fault c at action)

pub data Calls {M T : Type 0} (debug : T → Text) (c : SchedCore M T) : SchedCore M T → Type 0 where
  here : Calls debug c c
  next : {d e : SchedCore M T} → Calls debug c d → Call debug d e → Calls debug c e

module _ {M T : Type 0} {debug : T → Text} where
  pub Calls-trans : {c d e : SchedCore M T} → Calls debug c d → Calls debug d e → Calls debug c e
  Calls-trans m here = m
  Calls-trans m (next n s) = next (Calls-trans m n) s

  Call-Moves : {c d : SchedCore M T} → Call debug c d → Moves c d
  unfolding schedule_fault
  Call-Moves (draw rng) = next_move no_move (draw_move rng)
  Call-Moves {c = c} (send from to msg) = schedule_delivery-Moves c from to msg
  Call-Moves {c = c} (arm node tag after) = arm_timer-Moves debug c node tag after
  Call-Moves {c = c} (cancel node tag) = cancel_timer-Moves debug c node tag
  Call-Moves (close token kind v t) = next_move no_move (close_move token kind v t)
  Call-Moves (fault at action later) =
      next_move no_move (post at (EventKind.fault action) later refl)

  -- Every call is a sequence of elementary changes.
  pub Calls-Moves : {c d : SchedCore M T} → Calls debug c d → Moves c d
  Calls-Moves here = no_move
  Calls-Moves (next m s) = Moves-trans (Calls-Moves m) (Call-Moves s)
