-- ===== src/Facade/Guard/Judged.antt =====
-- What the answer of the guard says of the histories.
use propsim.Base.{
  subst, ℕ, zero, suc, ◌≡◌, ◌≢◌, inl, inr, Bool-cases, true, false, ◌==◌, ==_iff, arith, Option,
  none, some, [], ◌∷◌, length,
}
use propsim.History.{History, entry_eq}
use propsim.Core.Node.{Node}
use propsim.Core.Plan.{Seed}
use propsim.Core.TestPlan.{TestPlan}
use propsim.Sim.Drive.{value}
use propsim.Sim.Drive.Shrink.{bind_value, value_inj}
use propsim.Facade.Guard.{
  record_history, assert_deterministic, at_next, first_divergence, Guarded, passed, lengths_differ,
  diverged, compare_lengths, judge_at, judge_histories,
}

-- The entries before the position are equal, and those at it differ.

abbrev pub Diverge : ℕ → History → History → Type 0
Diverge n [] b = ⊥
Diverge n (x ∷ a) [] = ⊥
Diverge zero (x ∷ a) (y ∷ b) = entry_eq x y ≡ false
Diverge (suc n) (x ∷ a) (y ∷ b) = (entry_eq x y ≡ true) × Diverge n a b

-- Equal entries as far as both go.
abbrev pub Agree : History → History → Type 0
Agree [] b = Unit
Agree (x ∷ a) [] = Unit
Agree (x ∷ a) (y ∷ b) = (entry_eq x y ≡ true) × Agree a b

abbrev Position : History → History → Option ℕ → Type 0
Position a b none = Agree a b
Position a b (some n) = Diverge n a b

at_next-Position :
    (x y : _) (a b : History) (o : Option ℕ)
    → entry_eq x y ≡ true
    → Position a b o
    → Position (x ∷ a) (y ∷ b) (at_next o)
at_next-Position x y a b none e h = (e, h)
at_next-Position x y a b (some n) e h = (e, h)

first_divergence-Position : (a b : History) → Position a b (first_divergence a b)
unfolding first_divergence
first_divergence-Position [] b = tt
first_divergence-Position (x ∷ a) [] = tt
first_divergence-Position (x ∷ a) (y ∷ b) = elim (Bool-cases (entry_eq x y)) [
  | inl e ↦
      rw (e, first_divergence)
        (at_next-Position x y a b (first_divergence a b) e (first_divergence-Position a b))
  | inr e ↦ rw (e, first_divergence) e
]

-- What an answer claims of two histories.
abbrev pub Judged : History → History → Guarded → Type 0
Judged a b passed = Agree a b × (length a ≡ length b)
Judged a b lengths_differ = Agree a b × (length a ≢ length b)
Judged a b (diverged n) = Diverge n a b

compare_lengths-Judged : (a b : History) → Agree a b → Judged a b (compare_lengths a b)
unfolding compare_lengths
compare_lengths-Judged a b h = elim (Bool-cases (length a == length b)) [
  | inl e ↦ rw e (h, (==_iff (length a) (length b)).0 e)
  | inr e ↦ rw e (h, ground (arith, e))
]

judge_at-Judged :
    (a b : History) (o : Option ℕ) → Position a b o → Judged a b (judge_at (compare_lengths a b) o)
judge_at-Judged a b none h = compare_lengths-Judged a b h
judge_at-Judged a b (some n) h = h

judge_histories-Judged : (a b : History) → Judged a b (judge_histories a b)
unfolding judge_histories
judge_histories-Judged a b =
    judge_at-Judged a b (first_divergence a b) (first_divergence-Position a b)

-- Where the guard comes to an end, both runs have ended, and its answer is true of their histories:
-- it passes only histories of the same length that are equal entry by entry; it reports a
-- divergence at the first position at which the entries differ; and it reports a difference of
-- lengths where one history is a proper start of the other.
pub assert_deterministic-Judged :
    (N : Node) (fuel_each : ℕ) (plan_a plan_b : TestPlan N.State N.Op N.Response) (seed : Seed)
    (g : Guarded)
    → assert_deterministic N fuel_each plan_a plan_b seed ≡ value g
    → (a : History) × (b : History) × (record_history N fuel_each plan_a seed ≡ value a)
      × (record_history N fuel_each plan_b seed ≡ value b)
      × Judged a b g
unfolding assert_deterministic
assert_deterministic-Judged N fuel_each plan_a plan_b seed g h =
    let (a, ea, h') = bind_value (record_history N fuel_each plan_a seed) _ g h in
    let (b, eb, h'') = bind_value (record_history N fuel_each plan_b seed) _ g h' in
    (a, b, ea, eb, subst (Judged a b) (value_inj _ _ h'') (judge_histories-Judged a b))
