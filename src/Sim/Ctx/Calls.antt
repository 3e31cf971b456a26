-- ===== src/Sim/Ctx/Calls.antt =====
-- A callback of a node is a sequence of calls of the scheduler, whatever the node does.
use propsim.Base.{ℕ, refl, Option, List, [], ◌∷◌}
use propsim.History.{OpKind}
use propsim.History.Values.{Value}
use propsim.Core.Node.{NodeId, OpToken, Effect, Completion, ClientCodec}
use propsim.Sim.Rng.{next as next_rng}
use propsim.Sim.Scheduler.{SchedCore, schedule_delivery, peers, arm_timer, cancel_timer}
use propsim.Sim.Scheduler.Calls.{Calls, draw, send, arm, cancel, close, here, next, Calls-trans}
use propsim.Sim.Ctx.{send_each, complete_op, run_effect}

send_each-Calls :
    {M T : Type 0} {debug : T → List ℕ} (c : SchedCore M T) (from : NodeId) (tos : List NodeId)
    (msg : M)
    → Calls debug c (send_each c from tos msg)
unfolding send_each
send_each-Calls c from [] msg = here
send_each-Calls c from (to ∷ rest) msg =
    Calls-trans (next here (send from to msg))
      (send_each-Calls (schedule_delivery c from to msg) from rest msg)

module _ {M T Op Response : Type 0} (debug : T → List ℕ) (codec : Option (ClientCodec Op Response))
    (me : NodeId) where
  complete_op-Calls :
      (c : SchedCore M T) (token : OpToken) (k : Completion Response)
      → Calls debug c (complete_op debug codec me c token k)
  unfolding complete_op
  complete_op-Calls c token (Completion.ok resp) = next here (close token OpKind.ok _ refl)
  complete_op-Calls c token Completion.fail = next here (close token OpKind.fail Value.nil refl)
  complete_op-Calls c token Completion.info = next here (close token OpKind.info Value.nil refl)

  pub run_effect-Calls :
      {A : Type 0} (k : Effect M T Response A) (c : SchedCore M T)
      → Calls debug c (run_effect debug codec me k c).0
  unfolding run_effect
  run_effect-Calls (Effect.ret a) c = here
  run_effect-Calls (Effect.send to msg k) c =
      Calls-trans (next here (send me to msg)) (run_effect-Calls k (schedule_delivery c me to msg))
  run_effect-Calls (Effect.broadcast msg k) c =
      Calls-trans (send_each-Calls c me (peers c me) msg)
        (run_effect-Calls k (send_each c me (peers c me) msg))
  run_effect-Calls (Effect.set_timer tag after k) c =
      Calls-trans (next here (arm me tag after))
        (run_effect-Calls k (arm_timer debug c me tag after))
  run_effect-Calls (Effect.cancel_timer tag k) c =
      Calls-trans (next here (cancel me tag)) (run_effect-Calls k (cancel_timer debug c me tag))
  run_effect-Calls (Effect.now k) c = run_effect-Calls (k c.now) c
  run_effect-Calls (Effect.next_u64 k) c =
      Calls-trans (next here (draw (next_rng c.rng).1))
        (run_effect-Calls (k (next_rng c.rng).0) (record c { rng = (next_rng c.rng).1 }))
  run_effect-Calls (Effect.me k) c = run_effect-Calls (k me) c
  run_effect-Calls (Effect.complete_op token completion k) c =
      Calls-trans (complete_op-Calls c token completion)
        (run_effect-Calls k (complete_op debug codec me c token completion))
