-- ===== src/Facade/Rerun.antt =====
-- The panic of `run` on a violation shows again when its seed is pinned.
use propsim.Base.{
  ℕ, ◌≡◌, refl, inl, inr, Bool, true, false, Option, some, List, [], ◌∷◌, Text, Option-cases,
}
use propsim.Core.Node.{Node, Duration, ClientCodec}
use propsim.Core.Plan.{PlanData, FrozenOp, Scenario, Seed, NodeDef}
use propsim.Core.Property.{Property, Event}
use propsim.Core.Backend.{Backend, violation, validate}
use propsim.Core.Display.{display_failure}
use propsim.Sim.Drive.{Outcome, value, Driven, failure}
use propsim.Sim.Drive.Rerun.{drive-reruns}
use propsim.Sim.Drive.Shrink.{value_inj}
use propsim.Facade.{panics_with, negotiate_properties, drive_erased, try_run, run}

-- A violation comes from the typed path only.

negotiate-violation :
    {S : Type 0} (white : Bool) (ps : List (Property S)) (typed : Outcome Driven) (erased : Driven)
    (name : Text) (seed : Seed) (sc : Scenario)
    → (erased ≡ failure (violation name seed sc) → ⊥)
    → negotiate_properties white ps typed erased ≡ value (failure (violation name seed sc))
    → (white ≡ true) × (typed ≡ value (failure (violation name seed sc)))
unfolding negotiate_properties
negotiate-violation true ps typed erased name seed sc n h = (refl, h)
negotiate-violation false [] typed erased name seed sc n h = absurd (n (value_inj _ _ h))
negotiate-violation false (p ∷ ps) typed erased name seed sc n h =
    let bad = value_inj _ _ h in absurd (cc)

module _ (N : Node) (codec : Option (ClientCodec N.Op N.Response)) (debug_time : Duration → Text)
    (debug_anchor : Option Event → Text) (fuel_each : ℕ) (data' : PlanData) (def : Option NodeDef)
    (properties : List (Property N.State)) (backend : Backend)
    (workload : Option (Seed → List FrozenOp)) where
  -- Where `try_run` fails with a violation, it fails with the same violation, its shrunk scenario
  -- included, when the seed of the violation is pinned as PROPSIM_SEED, whatever seed was pinned
  -- before; and `run` then panics with the text of that violation, which names the seed.
  pub run-reruns :
      (pinned : Option Seed) (name : Text) (seed : Seed) (sc : Scenario)
      → try_run N codec debug_time debug_anchor fuel_each data' def properties backend workload
          pinned
        ≡ value (failure (violation name seed sc))
      → (try_run N codec debug_time debug_anchor fuel_each data' def properties backend workload
            (some seed)
          ≡ value (failure (violation name seed sc)))
        × (run N codec debug_time debug_anchor fuel_each data' def properties backend workload
              (some seed)
            ≡ value (panics_with (display_failure (violation name seed sc))))
  unfolding run try_run drive_erased negotiate_properties
  run-reruns pinned name seed sc h =
      elim (Option-cases (validate backend.executor backend.oracles)) [
        | inr (error, refused) ↦ let bad = value_inj _ _ (rw (refused, try_run) at h) in absurd (cc)
        | inl accepted ↦
            let (white, typed) =
              negotiate-violation backend.executor.capabilities.world_snapshots properties _ _ name
                seed sc (λ e. absurd (cc)) (rw (accepted, try_run) at h) in
            let again =
              drive-reruns N codec debug_time debug_anchor fuel_each data' def properties backend
                workload pinned name seed sc typed in
            (rw (accepted, try_run, again, white) refl, rw (accepted, try_run, again, white) refl)
      ]
