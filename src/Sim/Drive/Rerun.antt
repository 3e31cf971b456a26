-- ===== src/Sim/Drive/Rerun.antt =====
-- A violation shows again when its seed is pinned: PROPSIM_SEED is the seed of the first run.
use propsim.Base.{
  ℕ, zero, suc, max, ◌≡◌, refl, sym, ap, ◌∙◌, inl, inr, Option, none, some, List, [], ◌++◌, ◌-◌,
  Text, arith, Option-cases,
}
use propsim.Core.Node.{Node, Duration, ClientCodec}
use propsim.Core.Plan.{PlanData, FrozenOp, Scenario, Seed, NodeDef}
use propsim.Core.Oracle.{NamedVerdict}
use propsim.Core.Property.{Property, Event}
use propsim.Core.Backend.{Backend, violation}
use propsim.Sim.Driver.Run.{TypedRun}
use propsim.Sim.Drive.{
  Outcome, value, ◌>>=◌, failure, outcome, effective_seed, first_failed, property_verdicts,
  history_verdicts, run_at, shrink_scenario, judge, drive_loop, drive, full_ops,
}
use propsim.Sim.Drive.Shrink.{bind_value, value_inj}

module _ (N : Node) (codec : Option (ClientCodec N.Op N.Response)) (debug_time : Duration → Text)
    (debug_anchor : Option Event → Text) (fuel_each : ℕ) (data' : PlanData) (def : Option NodeDef)
    (properties : List (Property N.State)) (backend : Backend)
    (workload : Option (Seed → List FrozenOp)) where
  open N use {State}

  abbrev verdicts_of : TypedRun State → List NamedVerdict
  verdicts_of run =
      property_verdicts N codec debug_time debug_anchor fuel_each data' def properties backend run
      ++ history_verdicts N codec debug_time debug_anchor fuel_each data' def properties backend run

  abbrev run_with : Option Seed → Seed → Outcome (Option (TypedRun State))
  run_with pinned seed = outcome (
      run_at N codec debug_time debug_anchor fuel_each data' def properties backend workload pinned
        seed)

  abbrev shrunk_with : Option Seed → Seed → Text → Outcome Scenario
  shrunk_with pinned seed name =
      shrink_scenario N codec debug_time debug_anchor fuel_each data' def properties backend
        workload pinned seed name

  -- The run of a seed and its shrinking do not depend on the pinned seed.
  run_with-pinned : (p q : Option Seed) (seed : Seed) → run_with p seed ≡ run_with q seed
  unfolding run_at
  run_with-pinned p q seed = elim (Option-cases workload) [
    | inl missing ↦ rw missing refl
    | inr (generate, given) ↦ rw given refl
  ]

  shrunk_with-pinned :
      (p q : Option Seed) (seed : Seed) (name : Text)
      → shrunk_with p seed name ≡ shrunk_with q seed name
  unfolding shrink_scenario full_ops
  shrunk_with-pinned p q seed name = rw (run_with-pinned p q seed) refl

  -- What a violation comes from: a run at its seed, whose first failed verdict is that of the name.
  record Source (name : Text) (seed : Seed) (sc : Scenario) : Type 0 where
    run : TypedRun State
    verdict : NamedVerdict
    ran_run : run_with none seed ≡ value (some run)
    failed : first_failed (verdicts_of run) ≡ some verdict
    named : verdict.name ≡ name
    shrunk : shrunk_with none seed name ≡ value sc

  judge-Source :
      (pinned : Option Seed) (seed : Seed) (run : TypedRun State) (v : NamedVerdict) (name : Text)
      (seed' : Seed) (sc : Scenario)
      → run_with pinned seed ≡ value (some run)
      → first_failed (verdicts_of run) ≡ some v
      → (shrunk_with pinned seed v.name >>= λ s. value (failure (violation v.name seed s)))
        ≡ value (failure (violation name seed' sc))
      → Source name seed' sc
  judge-Source pinned seed run v name seed' sc e bad h =
      let (s, shrunk, made) = bind_value (shrunk_with pinned seed v.name) _ _ h in
      let same : failure (violation v.name seed s) ≡ failure (violation name seed' sc) =
        value_inj _ _ made in
      let names : v.name ≡ name = cc in
      let seeds : seed ≡ seed' = cc in
      let scenarios : s ≡ sc = cc in
      record {
        run = run;
        verdict = v;
        ran_run = run_with-pinned none pinned seed' ∙ ap (run_with pinned) (sym seeds) ∙ e;
        failed = bad;
        named = names;
        shrunk =
            shrunk_with-pinned none pinned seed' name
            ∙ ap (λ x. shrunk_with pinned x name) (sym seeds)
            ∙ ap (shrunk_with pinned seed) (sym names)
            ∙ shrunk
            ∙ ap (λ x. value x) scenarios;
      }

  drive_loop-Source :
      (pinned : Option Seed) (left s : ℕ) (vs : List NamedVerdict) (name : Text) (seed : Seed)
      (sc : Scenario)
      → drive_loop N codec debug_time debug_anchor fuel_each data' def properties backend workload
          pinned left s vs
        ≡ value (failure (violation name seed sc))
      → Source name seed sc
  unfolding drive_loop judge
  drive_loop-Source pinned zero s vs name seed sc h = let bad = value_inj _ _ h in absurd (cc)
  drive_loop-Source pinned (suc left) s vs name seed sc h =
      let now = effective_seed pinned s in
      let (r, got, k) = bind_value (run_with pinned now) _ _ h in
      elim (Option-cases r) [
        | inl gone ↦ let bad = value_inj _ _ (rw gone at k) in absurd (cc)
        | inr (run, there) ↦
            let e = got ∙ ap (λ x. value x) there in
            let judged = rw there at k in
            elim (Option-cases (first_failed (verdicts_of run))) [
              | inl clean ↦
                  drive_loop-Source pinned left (suc s) (vs ++ verdicts_of run) name seed sc
                    (rw (clean, judge) at judged)
              | inr (v, found) ↦
                  judge-Source pinned now run v name seed sc e found (rw (found, judge) at judged)
            ]
      ]

  first_run :
      (left : ℕ) (name : Text) (seed : Seed) (sc : Scenario)
      → Source name seed sc
      → drive_loop N codec debug_time debug_anchor fuel_each data' def properties backend workload
          (some seed)
          (suc left)
          0
          []
        ≡ value (failure (violation name seed sc))
  unfolding drive_loop judge effective_seed
  first_run left name seed sc o =
      let ran : run_with (some seed) seed ≡ value (some o.run) =
        run_with-pinned (some seed) none seed ∙ o.ran_run in
      let small : shrunk_with (some seed) seed o.verdict.name ≡ value sc =
        shrunk_with-pinned (some seed) none seed o.verdict.name
        ∙ ap (shrunk_with none seed) (o.named)
        ∙ o.shrunk in
      rw (ran, drive_loop, judge, o.failed, small)
        (ap (λ x. value (failure (violation x seed sc))) (o.named))

  -- A drive that fails with a violation fails with the same violation, the same scenario included,
  -- in its first run, when the seed of the violation is pinned as PROPSIM_SEED, whatever seed was
  -- pinned before.
  pub drive-reruns :
      (pinned : Option Seed) (name : Text) (seed : Seed) (sc : Scenario)
      → drive N codec debug_time debug_anchor fuel_each data' def properties backend workload pinned
        ≡ value (failure (violation name seed sc))
      → drive N codec debug_time debug_anchor fuel_each data' def properties backend workload
          (some seed)
        ≡ value (failure (violation name seed sc))
  unfolding drive
  drive-reruns pinned name seed sc h =
      let n = max data'.seeds 1 - 1 in
      let some_run : max data'.seeds 1 ≡ suc n = omega arith in
      rw some_run (
        first_run n name seed sc (drive_loop-Source pinned (max data'.seeds 1) 0 [] name seed sc h))
