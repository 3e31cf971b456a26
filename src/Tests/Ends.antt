-- ===== src/Tests/Ends.antt =====
-- The two-node counter keeps to a budget: an op pays for one broadcast and one timer.
use propsim.Base.{arith}
use propsim.Sim.Ctx.Addressed.{Contract, StaysIn}
use propsim.Sim.Ctx.Load.{Budget, Affords}
use propsim.Tests.Run.{counter}

abbrev counter-Contract : Contract counter 2
unfolding StaysIn
counter-Contract = record {
  IsState = λ s. Unit;
  IsMsg = λ n. Unit;
  IsTag = λ t. Unit;
  initial = tt;
  on_start = λ s h. h;
  on_msg = λ s from n h f m. h;
  on_timer = λ s t h g. h;
  on_client_op = λ s n token h. (tt, (tt, h));
}

abbrev counter-Budget : Budget counter 2
unfolding Affords
counter-Budget = record {
  weights = record { of_msg = λ n. 0; of_tag = λ t. 0; of_op = 5; of_start = 0 };
  credit = λ s. 0;
  on_start = λ s. omega arith;
  on_msg = λ s from n. omega arith;
  on_timer = λ s t. omega arith;
  on_client_op = λ s n token. (omega arith, (omega arith, omega arith));
}
