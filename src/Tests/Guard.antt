-- ===== src/Tests/Guard.antt =====
-- The guard on a small program, and the theorems on it applied.
use propsim.Base.{ℕ, ◌≡◌, refl, []}
use propsim.History.{History}
use propsim.History.Values.{Value, pos}
use propsim.Core.Node.{ClientCodec}
use propsim.Core.TestPlan.{
  TestPlan, plan, finish, with_nodes, with_faults, with_workload, with_client, with_seeds,
  with_state_machine, check,
}
use propsim.Sim.Drive.{value}
use propsim.Facade.Guard.{passed, judge_at, record_history, assert_deterministic}
use propsim.Facade.Guard.Judged.{Judged, assert_deterministic-Judged}
use propsim.Facade.Guard.Same.{no_nan, first_nan, assert_deterministic_self}
use propsim.Tests.Run
use propsim.Tests.Run.{counter, ops, outage, counted}

-- The plan of the run that ends, made by the builder.

unfoldable codec : ClientCodec ℕ ℕ
codec = record { decode = Run.decode_add; encode_response = λ f n. Value.int (pos n) }

unfoldable made : TestPlan ℕ ℕ ℕ
unfolding plan finish with_nodes with_faults with_workload with_state_machine with_seeds with_client
    check
made = finish (
    check
      (with_seeds
        (with_faults
          (with_client (with_workload (with_state_machine (with_nodes plan 2)) λ seed. ops) codec)
          outage)
        1)
      [])

recorded : record_history counter 40 made 7 ≡ value counted.history
unfolding Run.program made codec record_history
recorded = refl

assert_deterministic-self_example :
    assert_deterministic counter 40 made made 7
    ≡ value (judge_at passed (first_nan counted.history))
assert_deterministic-self_example =
    assert_deterministic_self counter 40 made 7 counted.history recorded

guarded : assert_deterministic counter 40 made made 7 ≡ value passed
unfolding first_nan no_nan
guarded = assert_deterministic_self counter 40 made 7 counted.history recorded

assert_deterministic-Judged_example :
    (a : History) × (b : History) × (record_history counter 40 made 7 ≡ value a)
    × (record_history counter 40 made 7 ≡ value b)
    × Judged a b passed
assert_deterministic-Judged_example =
    assert_deterministic-Judged counter 40 made made 7 passed guarded
