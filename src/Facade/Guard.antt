-- ===== src/Facade/Guard.antt =====
-- crates/propsim/src/guard.rs: two runs at a seed must have equal histories.
pub mod Judged
pub mod Same
use propsim.Base.{
  ℕ, suc, Bool, true, false, ◌==◌, Option, none, some, List, [], ◌∷◌, length, if◌then◌else◌,
}
use propsim.History.{History, entry_eq}
use propsim.Core.Node.{Node}
use propsim.Core.Plan.{FrozenOp, Seed}
use propsim.Core.TestPlan.{TestPlan, Strategy}
use propsim.Sim.Driver.Run.{TypedRun, run_deterministic}
use propsim.Sim.Drive.{Outcome, value, outcome, ◌>>=◌}

-- `zip` and `position`: the first index at which the entries differ.
abbrev pub at_next : Option ℕ → Option ℕ
at_next none = none
at_next (some n) = some (suc n)

unfoldable pub first_divergence : History → History → Option ℕ
first_divergence [] b = none
first_divergence (x ∷ a) [] = none
first_divergence (x ∷ a) (y ∷ b) = if entry_eq x y then at_next (first_divergence a b) else some 0

-- The guard returns, or it panics, for one reason or the other.
pub data Guarded : Type 0 where
  passed lengths_differ : Guarded
  diverged : ℕ → Guarded

unfoldable pub compare_lengths : History → History → Guarded
compare_lengths a b = if length a == length b then passed else lengths_differ

abbrev pub judge_at : Guarded → Option ℕ → Guarded
judge_at rest (some pos) = diverged pos
judge_at rest none = rest

unfoldable pub judge_histories : History → History → Guarded
judge_histories a b = judge_at (compare_lengths a b) (first_divergence a b)

abbrev pub generate : Seed → Option Strategy → Option (List FrozenOp)
generate seed none = none
generate seed (some strategy) = some (strategy seed)

-- Without an executor the history is empty.
abbrev pub history_or_default : {S : Type 0} → Option (TypedRun S) → History
history_or_default none = []
history_or_default (some r) = r.history

module _ (N : Node) (fuel : ℕ) where
  unfoldable pub record_history : TestPlan N.State N.Op N.Response → Seed → Outcome History
  record_history plan seed =
      outcome (
        run_deterministic N plan.client fuel plan.data' plan.node_def (generate seed plan.workload)
          seed)
      >>= λ r. value (history_or_default r)

  -- The plans are what `make_plan` makes, first and second.
  unfoldable pub assert_deterministic :
      TestPlan N.State N.Op N.Response → TestPlan N.State N.Op N.Response → Seed → Outcome Guarded
  assert_deterministic plan_a plan_b seed = record_history plan_a seed >>= λ a.
      record_history plan_b seed >>= λ b. value (judge_histories a b)
