-- ===== src/Sim/Drive/Shrink.antt =====
-- What shrinking keeps, and the first failure among verdicts.
use propsim.Base.{
  ℕ, zero, suc, ◌≡◌, refl, ap, ◌∙◌, subst, inl, inr, ◌⊎◌, Bool, true, false, Option, none, some,
  List, [], ◌∷◌, ◌++◌, Text, All, Bool-cases,
}
use propsim.Core.Node.{Node, Duration, ClientCodec}
use propsim.Core.Plan.{PlanData, FrozenOp, Seed, NodeDef}
use propsim.Core.Oracle.{NamedVerdict}
use propsim.Core.Property.{Property, Event}
use propsim.Core.Backend.{Backend}
use propsim.Sim.Drive.{
  Outcome, value, panic, fuel, ◌>>=◌, prefix, first_failed, still_fails, shrink_loop,
}

-- A chain that gives a value went through one.

pub bind_value :
    {A B : Type 0} (o : Outcome A) (k : A → Outcome B) (b : B)
    → (o >>= k) ≡ value b
    → (a : A) × (o ≡ value a) × (k a ≡ value b)
bind_value (value a) k b h = (a, refl, h)
bind_value panic k b h = cc
bind_value fuel k b h = cc

pub value_inj : {A : Type 0} (a b : A) → value a ≡ value b → a ≡ b
value_inj a b h = cc

abbrev pub IsPrefix : {A : Type 0} → List A → List A → Type 0
IsPrefix {A} xs ys = (rest : List A) × (ys ≡ xs ++ rest)

prefix-IsPrefix : {A : Type 0} (n : ℕ) (xs : List A) → IsPrefix (prefix n xs) xs
unfolding prefix
prefix-IsPrefix zero xs = (xs, refl)
prefix-IsPrefix (suc n) [] = ([], refl)
prefix-IsPrefix (suc n) (x ∷ xs) =
    let (rest, e) = prefix-IsPrefix n xs in (rest, ap (λ ys. x ∷ ys) e)

abbrev pub IsValid : NamedVerdict → Type 0
IsValid v = v.verdict.valid ≡ true

pub first_failed-none : (vs : List NamedVerdict) → first_failed vs ≡ none → All IsValid vs
unfolding first_failed
first_failed-none [] h = tt
first_failed-none (v ∷ vs) h = elim (Bool-cases v.verdict.valid) [
  | inl ok ↦ (ok, first_failed-none vs (rw (ok, first_failed) at h))
  | inr bad ↦ let e = rw (bad, first_failed) at h in cc
]

-- Some verdict of the list, of the given name, is invalid.
abbrev pub Fails : Text → List NamedVerdict → Type 0
Fails name [] = ⊥
Fails name (v ∷ vs) = ((v.name ≡ name) × (v.verdict.valid ≡ false)) ⊎ Fails name vs

pub first_failed-some :
    (vs : List NamedVerdict) (v : NamedVerdict) → first_failed vs ≡ some v → Fails v.name vs
unfolding first_failed
first_failed-some [] v h = cc
first_failed-some (w ∷ vs) v h = elim (Bool-cases w.verdict.valid) [
  | inl ok ↦ inr (first_failed-some vs v (rw (ok, first_failed) at h))
  | inr bad ↦
      let e = rw (bad, first_failed) at h in
      let same : w ≡ v = cc in inl (ap (λ (x : NamedVerdict). x.name) same, bad)
]

module _ (N : Node) (codec : Option (ClientCodec N.Op N.Response)) (debug_time : Duration → Text)
    (debug_anchor : Option Event → Text) (fuel_each : ℕ) (data' : PlanData) (def : Option NodeDef)
    (properties : List (Property N.State)) (backend : Backend) where
  open N use {State}

  abbrev pub fails_again : Seed → Text → List FrozenOp → Outcome Bool
  fails_again = still_fails N codec debug_time debug_anchor fuel_each data' def properties backend

  -- The ops are a prefix of all of them, and either all or enough for the failure to show again.
  abbrev pub IsShrunk : Seed → Text → List FrozenOp → List FrozenOp → Type 0
  IsShrunk seed name full ops =
      IsPrefix ops full × ((ops ≡ full) ⊎ (fails_again seed name ops ≡ value true))

  pub shrink_loop-IsShrunk :
      (seed : Seed) (name : Text) (full : List FrozenOp) (len : ℕ) (best ops : List FrozenOp)
      → IsShrunk seed name full best
      → shrink_loop N codec debug_time debug_anchor fuel_each data' def properties backend seed name
          full len best
        ≡ value ops
      → IsShrunk seed name full ops
  unfolding shrink_loop
  shrink_loop-IsShrunk seed name full zero best ops s h =
      let same : best ≡ ops = cc in subst (IsShrunk seed name full) same s
  shrink_loop-IsShrunk seed name full (suc len) best ops s h =
      let (fails, again, k) = bind_value (fails_again seed name (prefix len full)) _ ops h in
      elim (Bool-cases fails) [
        | inl again_fails ↦
            shrink_loop-IsShrunk seed name full len (prefix len full) ops
              (prefix-IsPrefix len full, inr (again ∙ ap (λ b. value b) again_fails))
              (rw again_fails at k)
        | inr passes ↦
            let kept = rw passes at k in
            let same : best ≡ ops = cc in subst (IsShrunk seed name full) same s
      ]
