-- ===== src/Sim/Drive/Correct.antt =====
-- What a drive reports and what its failures carry.
use mathlib.Core.List.{append_assoc, append-nil}
use propsim.Base.{
  ℕ, zero, suc, ◌+◌, ◌≤◌, ◌<◌, ◌≡◌, refl, sym, ap, ◌∙◌, subst, inl, inr, max, Option, none, some,
  List, [], ◌++◌, Text, arith, length, All, Option-cases,
}
use propsim.Core.Node.{Node, Duration, ClientCodec}
use propsim.Core.Plan.{PlanData, FrozenOp, Scenario, scenario, from_seed, Seed, NodeDef}
use propsim.Core.Oracle.{NamedVerdict}
use propsim.Core.Property.{Property, Event}
use propsim.Core.Backend.{Backend, RunFailure, violation}
use propsim.Sim.Driver.Run.{TypedRun, RunResult, ran, no_executor, out_of_bounds, out_of_fuel}
use propsim.Sim.Drive.{
  or_swarm, value, Driven, report, failure, outcome, collect_ops, effective_seed, first_failed,
  property_verdicts, history_verdicts, shrink_loop, run_at, full_ops, shrink_scenario, judge,
  drive_loop, drive,
}
use propsim.Sim.Drive.Shrink.{
  bind_value, value_inj, IsValid, first_failed-none, Fails, first_failed-some, IsShrunk,
  shrink_loop-IsShrunk,
}

module _ (N : Node) (codec : Option (ClientCodec N.Op N.Response)) (debug_time : Duration → Text)
    (debug_anchor : Option Event → Text) (fuel_each : ℕ) (data' : PlanData) (def : Option NodeDef)
    (properties : List (Property N.State)) (backend : Backend)
    (workload : Option (Seed → List FrozenOp)) (pinned : Option Seed) where
  open N use {State}

  abbrev run_of : Seed → RunResult State
  run_of =
      run_at N codec debug_time debug_anchor fuel_each data' def properties backend workload pinned

  abbrev pub verdicts_of : TypedRun State → List NamedVerdict
  verdicts_of run =
      property_verdicts N codec debug_time debug_anchor fuel_each data' def properties backend run
      ++ history_verdicts N codec debug_time debug_anchor fuel_each data' def properties backend run

  -- The runs at the seeds from index `s` end, and these are their verdicts, all valid.
  abbrev pub AllPass : ℕ → ℕ → List NamedVerdict → Type 0
  AllPass zero s vs = vs ≡ []
  AllPass (suc left) s vs =
      (run : TypedRun State) × (rest : List NamedVerdict) × (run_of (effective_seed pinned s)
        ≡ ran run)
      × (vs ≡ verdicts_of run ++ rest)
      × All IsValid (verdicts_of run)
      × AllPass left (suc s) rest

  -- The failure is that of a run at one of the seeds, and its scenario keeps the seed and ops
  -- that are all those of the run or enough for the failure to show again.
  pub record Fault (from to : ℕ) (name : Text) (seed : Seed) (sc : Scenario) : Type 0 where
    pub index : ℕ
    pub after : from ≤ index
    pub before : index < to
    pub at_index : seed ≡ effective_seed pinned index
    pub run : TypedRun State
    pub ran_run : run_of seed ≡ ran run
    pub failed : Fails name (verdicts_of run)
    pub keeps_seed : sc.origin_seed ≡ some seed
    pub shrunk :
        IsShrunk N codec debug_time debug_anchor fuel_each data' def properties backend seed name
          (collect_ops run.history)
          sc.ops

  -- At one of the seeds there is no executor for the node definition.
  abbrev pub NoRun : ℕ → ℕ → Type 0
  NoRun from to =
      (index : ℕ) × (from ≤ index)
      × (index < to)
      × (run_of (effective_seed pinned index) ≡ no_executor)

  -- What a drive that comes to an end says.
  abbrev pub Judged : ℕ → ℕ → List NamedVerdict → Driven → Type 0
  Judged left s vs (report r) =
      (r.seeds_run ≡ s + left)
      × (more : List NamedVerdict) × (r.verdicts ≡ vs ++ more)
      × AllPass left s more
  Judged left s vs (failure (violation name seed sc)) = Fault s (s + left) name seed sc
  Judged left s vs (failure RunFailure.no_executor) = NoRun s (s + left)
  Judged left s vs (failure (RunFailure.negotiation e)) = ⊥

  outcome-ran :
      (r : RunResult State) (run : TypedRun State) → outcome r ≡ value (some run) → r ≡ ran run
  outcome-ran (ran x) run h = let same : x ≡ run = cc in ap (λ y. ran y) same
  outcome-ran no_executor run h = cc
  outcome-ran out_of_bounds run h = cc
  outcome-ran out_of_fuel run h = cc

  outcome-none : (r : RunResult State) → outcome r ≡ value none → r ≡ no_executor
  outcome-none (ran x) h = cc
  outcome-none no_executor h = refl
  outcome-none out_of_bounds h = cc
  outcome-none out_of_fuel h = cc

  shrink_scenario-IsShrunk :
      (seed : Seed) (name : Text) (run : TypedRun State) (sc : Scenario)
      → run_of seed ≡ ran run
      → shrink_scenario N codec debug_time debug_anchor fuel_each data' def properties backend
          workload pinned seed name
        ≡ value sc
      → (sc.origin_seed ≡ some seed)
        × IsShrunk N codec debug_time debug_anchor fuel_each data' def properties backend seed name
            (collect_ops run.history)
            sc.ops
  unfolding shrink_scenario scenario from_seed full_ops
  shrink_scenario-IsShrunk seed name run sc e h =
      let full = collect_ops run.history in
      let started = rw (e, shrink_scenario) at h in
      let (best, looped, made) =
        bind_value
          (shrink_loop N codec debug_time debug_anchor fuel_each data' def properties backend seed
            name full (length full) full)
          (λ ops. value (from_seed (scenario ops (or_swarm data'.faults)) seed)) sc started in
      let same = value_inj _ sc made in
      let s =
        shrink_loop-IsShrunk N codec debug_time debug_anchor fuel_each data' def properties backend
          seed name full (length full) full best (([], sym (append-nil full)), inl refl) looped in
      (
        ap (λ (x : Scenario). x.origin_seed) (sym same),
        subst
            (IsShrunk N codec debug_time debug_anchor fuel_each data' def properties backend seed
              name full)
            (ap (λ (x : Scenario). x.ops) same) s,
      )

  -- A run whose verdicts are all valid, before the rest.
  Judged-pass :
      (left s : ℕ) (vs : List NamedVerdict) (run : TypedRun State) (d : Driven)
      → run_of (effective_seed pinned s) ≡ ran run
      → All IsValid (verdicts_of run)
      → Judged left (suc s) (vs ++ verdicts_of run) d
      → Judged (suc left) s vs d
  Judged-pass left s vs run (report r) e ok (count, more, all, rest) = (
    omega arith,
    verdicts_of run ++ more,
    all ∙ append_assoc vs (verdicts_of run) more,
    (run, more, e, refl, ok, rest),
  )
  Judged-pass left s vs run (failure (violation name seed sc)) e ok f = record {
    index = f.index;
    after = omega (arith, f.after);
    before = omega (arith, f.before);
    at_index = f.at_index;
    run = f.run;
    ran_run = f.ran_run;
    failed = f.failed;
    keeps_seed = f.keeps_seed;
    shrunk = f.shrunk;
  }
  Judged-pass left s vs run (failure (RunFailure.negotiation x)) e ok f = f
  Judged-pass left s vs run (failure RunFailure.no_executor) e ok (index, after, before, gone) =
      (index, omega arith, omega arith, gone)

  Judged-fail :
      (left s : ℕ) (vs : List NamedVerdict) (run : TypedRun State) (v : NamedVerdict)
      (sc : Scenario)
      → run_of (effective_seed pinned s) ≡ ran run
      → first_failed (verdicts_of run) ≡ some v
      → shrink_scenario N codec debug_time debug_anchor fuel_each data' def properties backend
          workload pinned
          (effective_seed pinned s)
          v.name
        ≡ value sc
      → Judged (suc left) s vs (failure (violation v.name (effective_seed pinned s) sc))
  Judged-fail left s vs run v sc e bad shrunk =
      let (keeps, ops) =
        shrink_scenario-IsShrunk (effective_seed pinned s) v.name run sc e shrunk in
      record {
        index = s;
        after = omega arith;
        before = omega arith;
        at_index = refl;
        run = run;
        ran_run = e;
        failed = first_failed-some (verdicts_of run) v bad;
        keeps_seed = keeps;
        shrunk = ops;
      }

  drive_loop-Judged :
      (left s : ℕ) (vs : List NamedVerdict) (d : Driven)
      → drive_loop N codec debug_time debug_anchor fuel_each data' def properties backend workload
          pinned left s vs
        ≡ value d
      → Judged left s vs d
  unfolding drive_loop judge
  drive_loop-Judged zero s vs d h =
      subst (Judged zero s vs) (value_inj _ d h) (omega arith, [], sym (append-nil vs), refl)
  drive_loop-Judged (suc left) s vs d h =
      let seed = effective_seed pinned s in
      let (r, got, k) = bind_value (outcome (run_of seed)) _ d h in
      elim (Option-cases r) [
        | inl gone ↦
            subst (Judged (suc left) s vs) (value_inj _ d (rw gone at k)) (
              s,
              omega arith,
              omega arith,
              outcome-none (run_of seed) (got ∙ ap (λ x. value x) gone),
            )
        | inr (run, there) ↦
            let e = outcome-ran (run_of seed) run (got ∙ ap (λ x. value x) there) in
            let judged = rw there at k in
            elim (Option-cases (first_failed (verdicts_of run))) [
              | inl clean ↦
                  Judged-pass left s vs run d e (first_failed-none (verdicts_of run) clean) (
                    drive_loop-Judged left (suc s) (vs ++ verdicts_of run) d
                      (rw (clean, judge) at judged))
              | inr (v, bad) ↦
                  let (sc, shrunk, made) = bind_value _ _ d (rw (bad, judge) at judged) in
                  subst (Judged (suc left) s vs) (value_inj _ d made)
                    (Judged-fail left s vs run v sc e bad shrunk)
            ]
      ]

  -- A drive that comes to an end either reports, for every seed of the plan, the verdicts of the
  -- run at that seed, all valid, or fails with a violation that a property or oracle of that name
  -- reports on the run at one of the seeds, where the scenario keeps that seed, and its ops are a
  -- prefix of the ops that the run invoked: all of them or enough for the failure to show again.
  -- It has no executor only if the run at one of the seeds has none, and it never fails in
  -- negotiation.
  pub drive-Judged :
      (d : Driven)
      → drive N codec debug_time debug_anchor fuel_each data' def properties backend workload pinned
        ≡ value d
      → Judged (max data'.seeds 1) 0 [] d
  unfolding drive
  drive-Judged d h = drive_loop-Judged (max data'.seeds 1) 0 [] d h
