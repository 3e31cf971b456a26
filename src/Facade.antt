-- ===== src/Facade.antt =====
-- crates/propsim/src/run.rs: `try_run`, the negotiation of a plan with a backend before any run, and
-- `run`, which panics on a failure.
pub mod Rerun
pub mod Paired
pub mod Negotiation
pub mod Guard
pub mod Presets
use propsim.Base.{ℕ, Bool, true, false, not, ◌&&◌, Option, none, some, List, [], ◌∷◌, Text}
use propsim.Core.Node.{Node, Duration, ClientCodec}
use propsim.Core.Plan.{PlanData, FrozenOp, Seed, NodeDef}
use propsim.Core.Oracle.{RunOutput}
use propsim.Core.Property.{Property, Event}
use propsim.Core.Backend.{
  Backend, BackendError, white_box_oracles_on_black_box_executor, Report, RunFailure, negotiation,
  validate,
}
use propsim.Core.Display.{display_failure}
use propsim.Sim.Drive.{
  Outcome, value, ◌>>=◌, Driven, report, failure, effective_seed, oracle_verdicts, drive,
}

unfoldable pub property_names : {S : Type 0} → List (Property S) → List Text
property_names [] = []
property_names (p ∷ ps) = p.name ∷ property_names ps

-- What `run` does: it returns the report, or panics with the text of the failure.
pub data Answer : Type 0 where
  passes : Report → Answer
  panics_with : Text → Answer

abbrev pub answer : Driven → Answer
answer (report r) = passes r
answer (failure f) = panics_with (display_failure f)

-- `drive_erased`: one run of the executor, judged by the oracles.
unfoldable pub drive_erased : PlanData → Option Seed → Backend → Driven
drive_erased data' pinned backend =
    let out = backend.executor.run data' (effective_seed pinned 0) in
    report (record { verdicts = oracle_verdicts backend.oracles out; seeds_run = 1 })

-- The typed path or the erased one, once no property is left on a black-box executor.
unfoldable pub negotiate_properties :
    {S : Type 0} → Bool → List (Property S) → Outcome Driven → Driven → Outcome Driven
unfolding property_names
negotiate_properties true properties typed erased = typed
negotiate_properties false [] typed erased = value erased
negotiate_properties false (p ∷ ps) typed erased =
    value
      (failure (negotiation (white_box_oracles_on_black_box_executor (property_names (p ∷ ps)))))

module _ (N : Node) (codec : Option (ClientCodec N.Op N.Response)) (debug_time : Duration → Text)
    (debug_anchor : Option Event → Text) (fuel_each : ℕ) (data' : PlanData) (def : Option NodeDef)
    (properties : List (Property N.State)) (backend : Backend)
    (workload : Option (Seed → List FrozenOp)) (pinned : Option Seed) where
  unfoldable pub try_run : Outcome Driven
  try_run = elim (validate backend.executor backend.oracles) [
    | some error ↦ value (failure (negotiation error))
    | none ↦
        negotiate_properties backend.executor.capabilities.world_snapshots properties
          (drive N codec debug_time debug_anchor fuel_each data' def properties backend workload
            pinned)
          (drive_erased data' pinned backend)
  ]

  unfoldable pub run : Outcome Answer
  run = try_run >>= λ d. value (answer d)
