-- ===== src/Facade/Guard/Same.antt =====
-- The guard on a plan that is made twice alike.
use propsim.Base.{
  ℕ, ◌≡◌, refl, Bool, true, false, not, ◌==◌, ◌&&◌, arith, Option, none, some, List, [], ◌∷◌,
  length, text_eq, text_eq_iff, if◌then◌else◌,
}
use propsim.Float64.{is_nan, float_eq}
use propsim.History.{
  History, OpEntry, OpKind, Clock, virtual, wall, kind_eq, clock_eq, time_eq, entry_eq,
}
use propsim.History.Values.{
  Value, nil, bool, int, float, str, keyword, list, map, Values, empty, cons, Pairs, end, pair, ℤ,
  pos, negsuc, int_eq, value_eq, values_eq, pairs_eq,
}
use propsim.Core.Node.{Node}
use propsim.Core.Plan.{Seed}
use propsim.Core.TestPlan.{TestPlan}
use propsim.Sim.Drive.{value}
use propsim.Facade.Guard.{
  at_next, first_divergence, passed, compare_lengths, judge_at, judge_histories, record_history,
  assert_deterministic,
}

-- No float of the value is a NaN.

unfoldable mutual
  pub no_nan : Value → Bool
  no_nan (float f) = not (is_nan f)
  no_nan (list items) = no_nans items
  no_nan (map pairs) = no_nan_pairs pairs
  no_nan _ = true

  pub no_nans : Values → Bool
  no_nans empty = true
  no_nans (cons v items) = no_nan v && no_nans items

  pub no_nan_pairs : Pairs → Bool
  no_nan_pairs end = true
  no_nan_pairs (pair k v pairs) = no_nan k && no_nan v && no_nan_pairs pairs

int_eq_self : (i : ℤ) → int_eq i i ≡ true
unfolding int_eq
int_eq_self (pos n) = ground arith
int_eq_self (negsuc n) = ground arith

text_eq_self : (s : List ℕ) → text_eq s s ≡ true
text_eq_self s = (text_eq_iff s s).1 refl

float_eq_self : (f : ℕ) → float_eq f f ≡ not (is_nan f)
unfolding float_eq
float_eq_self f = ground arith

mutual
  unfolding value_eq no_nan

  value_eq_self : (v : Value) → value_eq v v ≡ no_nan v
  value_eq_self nil = refl
  value_eq_self (bool true) = refl
  value_eq_self (bool false) = refl
  value_eq_self (int i) = int_eq_self i
  value_eq_self (float f) = float_eq_self f
  value_eq_self (str s) = text_eq_self s
  value_eq_self (keyword k) = text_eq_self k
  value_eq_self (list items) = values_eq_self items
  value_eq_self (map pairs) = pairs_eq_self pairs

  values_eq_self : (items : Values) → values_eq items items ≡ no_nans items
  values_eq_self empty = refl
  values_eq_self (cons v items) = rw (value_eq_self v, values_eq_self items) refl

  pairs_eq_self : (pairs : Pairs) → pairs_eq pairs pairs ≡ no_nan_pairs pairs
  pairs_eq_self end = refl
  pairs_eq_self (pair k v pairs) = rw (value_eq_self k, value_eq_self v, pairs_eq_self pairs) refl

kind_eq_self : (k : OpKind) → kind_eq k k ≡ true
kind_eq_self OpKind.invoke = refl
kind_eq_self OpKind.ok = refl
kind_eq_self OpKind.fail = refl
kind_eq_self OpKind.info = refl

clock_eq_self : (c : Clock) → clock_eq c c ≡ true
clock_eq_self virtual = refl
clock_eq_self wall = refl

nat_eq_self : (n : ℕ) → (n == n) ≡ true
nat_eq_self n = ground arith

entry_eq_self : (e : OpEntry) → entry_eq e e ≡ no_nan e.value
unfolding entry_eq time_eq
entry_eq_self e =
    rw
      (
        nat_eq_self e.index,
        int_eq_self e.time.nanos,
        clock_eq_self e.time.clock,
        kind_eq_self e.kind,
        nat_eq_self e.process,
        text_eq_self e.f,
      )
      (value_eq_self e.value)

-- The first entry whose value has a NaN.
unfoldable pub first_nan : History → Option ℕ
first_nan [] = none
first_nan (e ∷ h) = if no_nan e.value then at_next (first_nan h) else some 0

first_divergence_self : (h : History) → first_divergence h h ≡ first_nan h
unfolding first_divergence first_nan
first_divergence_self [] = refl
first_divergence_self (e ∷ h) = rw (entry_eq_self e, first_divergence_self h) refl

judge_histories_self : (h : History) → judge_histories h h ≡ judge_at passed (first_nan h)
unfolding judge_histories compare_lengths
judge_histories_self h = rw (nat_eq_self (length h), first_divergence_self h) refl

-- On a plan that is made twice alike and whose run comes to an end, the guard passes if no value of
-- the history has a NaN. Otherwise it reports a divergence, at the first entry with a NaN, though
-- both runs are the same.
pub assert_deterministic_self :
    (N : Node) (fuel : ℕ) (plan : TestPlan N.State N.Op N.Response) (seed : Seed) (h : History)
    → record_history N fuel plan seed ≡ value h
    → assert_deterministic N fuel plan plan seed ≡ value (judge_at passed (first_nan h))
unfolding assert_deterministic
assert_deterministic_self N fuel plan seed h e = rw (e, judge_histories_self h) refl
