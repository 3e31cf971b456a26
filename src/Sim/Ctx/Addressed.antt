-- ===== src/Sim/Ctx/Addressed.antt =====
-- A contract on the callbacks of a node, and the events that a callback leaves which keeps it.
use propsim.Base.{ℕ, ◌<◌, refl, Option, List, [], ◌∷◌, Text, All}
use propsim.Core.Node.{Node, NodeId, Duration, Effect, Completion, OpToken, OpOutcome, ClientCodec}
use propsim.History.{OpKind}
use propsim.History.Values.{Value}
use propsim.Sim.Rng.{next}
use propsim.Sim.Scheduler.{SchedCore, schedule_delivery, peers, arm_timer, cancel_timer}
use propsim.Sim.Scheduler.Addressed.{
  IsAddressed, same-IsAddressed, schedule_delivery-IsAddressed, peers-All, arm_timer-IsAddressed,
  cancel_timer-IsAddressed, close_op-IsAddressed,
}
use propsim.Sim.Ctx.{send_each, complete_op, run_effect}

module _ {M T R A : Type 0} (n : ℕ) (IsMsg : M → Type 0) (IsTag : T → Type 0)
    (Ends : A → Type 0) where
  -- Whatever the context answers, the callback sends only messages of `IsMsg`, and only to the `n`
  -- nodes, arms only timers of `IsTag`, and ends with a value of `Ends`.
  unfoldable pub StaysIn : Effect M T R A → Type 0
  StaysIn (Effect.ret a) = Ends a
  StaysIn (Effect.send to msg k) = (to < n) × IsMsg msg × StaysIn k
  StaysIn (Effect.broadcast msg k) = IsMsg msg × StaysIn k
  StaysIn (Effect.set_timer tag after k) = IsTag tag × StaysIn k
  StaysIn (Effect.cancel_timer tag k) = StaysIn k
  StaysIn (Effect.now k) = (now : Duration) → StaysIn (k now)
  StaysIn (Effect.next_u64 k) = (drawn : ℕ) → StaysIn (k drawn)
  StaysIn (Effect.me k) = (id : NodeId) → id < n → StaysIn (k id)
  StaysIn (Effect.complete_op token completion k) = StaysIn k

-- The contract of a node in a cluster of `n`: its callbacks, called on a state of `IsState` and with
-- what the contract allows, stay in the cluster and end in such a state.
pub record Contract (N : Node) (n : ℕ) : Type 1 where
  pub IsState : N.State → Type 0
  pub IsMsg : N.Msg → Type 0
  pub IsTag : N.Timer → Type 0
  pub initial : IsState N.initial
  pub on_start : (s : N.State) → IsState s → StaysIn n IsMsg IsTag IsState (N.on_start s)
  pub on_msg :
      (s : N.State) (from : NodeId) (msg : N.Msg)
      → IsState s
      → from < n
      → IsMsg msg
      → StaysIn n IsMsg IsTag IsState (N.on_msg s from msg)
  pub on_timer :
      (s : N.State) (tag : N.Timer)
      → IsState s
      → IsTag tag
      → StaysIn n IsMsg IsTag IsState (N.on_timer s tag)
  pub on_client_op :
      (s : N.State) (op : N.Op) (token : OpToken)
      → IsState s
      → StaysIn n IsMsg IsTag
          (λ (r : N.State × OpOutcome N.Response). IsState r.0)
          (N.on_client_op s op token)

module _ {M T Op R : Type 0} (debug : T → Text) (codec : Option (ClientCodec Op R)) (me n ops : ℕ)
    (here : me < n) (IsMsg : M → Type 0) (IsTag : T → Type 0) where
  abbrev Addressed : SchedCore M T → Type 0
  Addressed c = IsAddressed n ops IsMsg IsTag c

  send_each-IsAddressed :
      (c : SchedCore M T) (tos : List NodeId) (msg : M)
      → All (λ to. to < n) tos
      → IsMsg msg
      → Addressed c
      → Addressed (send_each c me tos msg)
  unfolding send_each
  send_each-IsAddressed c [] msg h m i = i
  send_each-IsAddressed c (to ∷ rest) msg h m i =
      send_each-IsAddressed (schedule_delivery c me to msg) rest msg h.1 m
        (schedule_delivery-IsAddressed n ops IsMsg IsTag c me to msg here h.0 m i)

  complete_op-IsAddressed :
      (c : SchedCore M T) (token : OpToken) (completion : Completion R)
      → Addressed c
      → Addressed (complete_op debug codec me c token completion)
  unfolding complete_op
  complete_op-IsAddressed c token (Completion.ok resp) i =
      close_op-IsAddressed n ops IsMsg IsTag c token OpKind.ok _ i
  complete_op-IsAddressed c token Completion.fail i =
      close_op-IsAddressed n ops IsMsg IsTag c token OpKind.fail Value.nil i
  complete_op-IsAddressed c token Completion.info i =
      close_op-IsAddressed n ops IsMsg IsTag c token OpKind.info Value.nil i

  -- A callback that stays in the cluster leaves addressed events, and ends as it should.
  pub run_effect-IsAddressed :
      {A : Type 0} (Ends : A → Type 0) (e : Effect M T R A) (c : SchedCore M T)
      → StaysIn n IsMsg IsTag Ends e
      → Addressed c
      → Addressed (run_effect debug codec me e c).0 × Ends (run_effect debug codec me e c).1
  unfolding run_effect StaysIn
  run_effect-IsAddressed Ends (Effect.ret a) c h i = (i, h)
  run_effect-IsAddressed Ends (Effect.send to msg k) c h i =
      run_effect-IsAddressed Ends k (schedule_delivery c me to msg) h.2
        (schedule_delivery-IsAddressed n ops IsMsg IsTag c me to msg here h.0 h.1 i)
  run_effect-IsAddressed Ends (Effect.broadcast msg k) c h i =
      run_effect-IsAddressed Ends k (send_each c me (peers c me) msg) h.1
        (send_each-IsAddressed c (peers c me) msg (peers-All n ops IsMsg IsTag c me i) h.0 i)
  run_effect-IsAddressed Ends (Effect.set_timer tag after k) c h i =
      run_effect-IsAddressed Ends k (arm_timer debug c me tag after) h.1
        (arm_timer-IsAddressed n ops IsMsg IsTag debug c me tag after here h.0 i)
  run_effect-IsAddressed Ends (Effect.cancel_timer tag k) c h i =
      run_effect-IsAddressed Ends k (cancel_timer debug c me tag) h
        (cancel_timer-IsAddressed n ops IsMsg IsTag debug c me tag i)
  run_effect-IsAddressed Ends (Effect.now k) c h i =
      run_effect-IsAddressed Ends (k c.now) c (h c.now) i
  run_effect-IsAddressed Ends (Effect.next_u64 k) c h i =
      run_effect-IsAddressed Ends (k (next c.rng).0) (record c { rng = (next c.rng).1 })
        (h (next c.rng).0) (same-IsAddressed n ops IsMsg IsTag c _ refl refl i)
  run_effect-IsAddressed Ends (Effect.me k) c h i =
      run_effect-IsAddressed Ends (k me) c (h me here) i
  run_effect-IsAddressed Ends (Effect.complete_op token completion k) c h i =
      run_effect-IsAddressed Ends k (complete_op debug codec me c token completion) h
        (complete_op-IsAddressed c token completion i)
