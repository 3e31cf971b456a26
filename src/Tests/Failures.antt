-- ===== src/Tests/Failures.antt =====
-- Failures and their texts, artifacts and fault descriptions: crates/propsim/src/run.rs and
-- crates/propsim-core at work.
use propsim.Base.{◌≡◌, refl, true, false, none, some, List, [], ◌∷◌, codes, text_eq}
use propsim.History.Values.{Value, pos}
use propsim.Core.Node.{millis}
use propsim.Core.Plan.{Scenario, Seed, from_seed, scenario, frozen_op}
use propsim.Core.Backend.{violation, validate, offenders, custom, build as build_backend}
use propsim.Core.Display.{display_failure}
use propsim.Core.Faults.{Mode, FaultKind, ScriptedAction, swarm, scripted, swarm_kinds, script}
use propsim.Core.Faults.Builder.{
  Verb, enable, act, in_mode, build, is_swarm, get_mode, build-regime, events_in,
}
use propsim.Core.Artifacts.{Artifacts, new, text_lt, put, insert, iter, get, find}
use propsim.Sim.Drive.{value, failure, effective_seed}
use propsim.Facade.{panics_with, try_run, run, drive_erased, negotiate_properties, property_names}
use propsim.Facade.Rerun.{run-reruns}
use propsim.Facade.Presets
use propsim.Facade.Presets.{deterministic_executor}
use propsim.Tests.Drive.{debug, debug_anchor, stays_low, program}
use propsim.Tests.Run.{outage, counter, counter_codec, ops, plan}

unfoldable facade : Unit {0}
unfolding program drive_erased negotiate_properties property_names try_run validate offenders custom
    build_backend Presets.deterministic deterministic_executor
facade = tt

abbrev derived : Seed
unfolding program
derived = effective_seed none 0

-- One op is enough for the violation.
abbrev shrunk : Scenario
unfolding program
shrunk = from_seed (scenario (frozen_op 0 (Value.int (pos 3)) ∷ []) outage) derived

violated :
    try_run counter counter_codec debug debug_anchor 40 plan none
      (stays_low ∷ [])
      Presets.deterministic
      (some (λ seed. ops))
      none
    ≡ value (failure (violation (codes "low") derived shrunk))
unfolding facade
violated = refl

run-reruns_example :
    (try_run counter counter_codec debug debug_anchor 40 plan none
        (stays_low ∷ [])
        Presets.deterministic
        (some (λ seed. ops))
        (some derived)
      ≡ value (failure (violation (codes "low") derived shrunk)))
    × (run counter counter_codec debug debug_anchor 40 plan none
          (stays_low ∷ [])
          Presets.deterministic
          (some (λ seed. ops))
          (some derived)
        ≡ value (panics_with (display_failure (violation (codes "low") derived shrunk))))
run-reruns_example =
    run-reruns counter counter_codec debug debug_anchor 40 plan none (stays_low ∷ [])
      Presets.deterministic (some (λ seed. ops)) none (codes "low") derived shrunk violated

abbrev plots : Artifacts
unfolding insert put text_lt text_eq
plots = insert (insert new (codes "store") (codes "/tmp/a")) (codes "latency.svg") (codes "/tmp/b")

stored : get plots (codes "latency.svg") ≡ some (codes "/tmp/b")
unfolding get find plots text_eq
stored = refl

in_order : iter plots ≡ (codes "latency.svg", codes "/tmp/b") ∷ (codes "store", codes "/tmp/a") ∷ []
unfolding iter plots
in_order = refl

-- Calls of both regimes, mixed.
abbrev calls : List Verb
calls =
    enable FaultKind.partitions
    ∷ act (millis 3) (ScriptedAction.crash 1)
    ∷ in_mode Mode.liveness
    ∷ enable FaultKind.reorder
    ∷ act (millis 9) ScriptedAction.heal_all
    ∷ []

build-regime_example :
    ((swarm_kinds (build swarm calls) ≡ some (FaultKind.partitions ∷ FaultKind.reorder ∷ []))
      × (script (build swarm calls) ≡ none)
      × (is_swarm (build swarm calls) ≡ true)
      × (get_mode (build swarm calls) ≡ Mode.liveness))
    × ((script (build scripted calls) ≡ some (events_in calls))
        × (swarm_kinds (build scripted calls) ≡ none)
        × (is_swarm (build scripted calls) ≡ false)
        × (get_mode (build scripted calls) ≡ Mode.liveness))
build-regime_example = build-regime calls
