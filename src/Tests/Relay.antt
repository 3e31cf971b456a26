-- ===== src/Tests/Relay.antt =====
-- A node whose state, messages and timers are names of nodes, run on a cluster of two.
use propsim.Base.{ℕ, ◌<◌, ◌≢◌, none, some, [], ◌∷◌, arith}
use propsim.Core.Node.{Node, Effect, OpOutcome, millis}
use propsim.Sim.Ctx.Addressed.{Contract, StaysIn}
use propsim.Sim.Faults.Addressed.{AreFaultsIn}
use propsim.Sim.Driver.Run.{out_of_bounds, run_deterministic}
use propsim.Sim.Driver.Run.Safe.{run-in_bounds}
use propsim.Tests.Run.{program, counter_codec, plan, ops}

-- A message is passed on to the node that it names, with the name of its sender.

abbrev relay : Node
relay = record {
  State = ℕ;
  Msg = ℕ;
  Timer = ℕ;
  Op = ℕ;
  Response = ℕ;
  initial = 0;
  debug = λ t. t ∷ [];
  on_start = λ s. Effect.set_timer s (millis 1) (Effect.ret s);
  on_msg = λ s from to. Effect.send to from (Effect.ret from);
  on_timer = λ s to. Effect.send to s (Effect.ret s);
  on_client_op =
      λ s n token. Effect.me (λ id. Effect.broadcast id (Effect.ret (id, OpOutcome.done n)));
}

abbrev IsName : ℕ → Type 0
IsName k = k < 2

abbrev relay-Contract : Contract relay 2
unfolding StaysIn
relay-Contract = record {
  IsState = IsName;
  IsMsg = IsName;
  IsTag = IsName;
  initial = omega arith;
  on_start = λ s h. (h, h);
  on_msg = λ s from to h f m. (m, f, f);
  on_timer = λ s to h t. (t, h, h);
  on_client_op = λ s n token h id l. (l, l);
}

outage-AreFaultsIn : AreFaultsIn 2 plan.faults
unfolding program
outage-AreFaultsIn = (tt, (omega arith, tt))

run-in_bounds_example :
    run_deterministic relay counter_codec 40 plan none (some ops) 7 ≢ out_of_bounds
run-in_bounds_example =
    run-in_bounds relay counter_codec 40 plan none (some ops) 7 relay-Contract outage-AreFaultsIn
