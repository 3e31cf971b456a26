-- ===== src/Sim/Ctx.antt =====
-- crates/propsim-sim/src/ctx.rs: `HarnessCtx`, which runs the calls of a callback on the
-- scheduler.
pub mod Calls
pub mod Addressed
pub mod Load
use propsim.Base.{ℕ, Option, none, some, List, [], ◌∷◌}
use propsim.History.{OpKind}
use propsim.History.Values.{Value}
use propsim.Core.Node.{NodeId, OpToken, Effect, Completion, ClientCodec}
use propsim.Sim.Rng.{next}
use propsim.Sim.Scheduler.{
  SchedCore, ctx_send, peers, ctx_set_timer, ctx_cancel_timer, pending_f, close_op,
}

-- One send to each of the nodes, in order.

unfoldable pub send_each : {M T : Type 0} → SchedCore M T → NodeId → List NodeId → M → SchedCore M T
send_each c from [] msg = c
send_each c from (to ∷ rest) msg = send_each (ctx_send c from to msg) from rest msg

module _ {M T Op Response : Type 0} (debug : T → List ℕ) (codec : Option (ClientCodec Op Response))
    (me : NodeId) where
  -- The value of an `Ok` entry: nil without a codec or on a token that is not open.
  unfoldable pub completion_value : SchedCore M T → OpToken → Response → Value
  completion_value c token resp = elim codec [
    | none ↦ Value.nil
    | some codec' ↦ elim (pending_f c token) [
      | none ↦ Value.nil
      | some f ↦ codec'.encode_response f resp
    ]
  ]

  unfoldable pub complete_op : SchedCore M T → OpToken → Completion Response → SchedCore M T
  complete_op c token (Completion.ok resp) =
      close_op c token OpKind.ok (completion_value c token resp)
  complete_op c token Completion.fail = close_op c token OpKind.fail Value.nil
  complete_op c token Completion.info = close_op c token OpKind.info Value.nil

  -- A whole callback.
  unfoldable pub run_effect :
      {A : Type 0} → Effect M T Response A → SchedCore M T → SchedCore M T × A
  run_effect (Effect.ret a) c = (c, a)
  run_effect (Effect.send to msg k) c = run_effect k (ctx_send c me to msg)
  run_effect (Effect.broadcast msg k) c = run_effect k (send_each c me (peers c me) msg)
  run_effect (Effect.set_timer tag after k) c = run_effect k (ctx_set_timer debug c me tag after)
  run_effect (Effect.cancel_timer tag k) c = run_effect k (ctx_cancel_timer debug c me tag)
  run_effect (Effect.now k) c = run_effect (k c.now) c
  run_effect (Effect.next_u64 k) c =
      run_effect (k (next c.rng).0) (record c { rng = (next c.rng).1 })
  run_effect (Effect.me k) c = run_effect (k me) c
  run_effect (Effect.complete_op token completion k) c =
      run_effect k (complete_op c token completion)
