-- ===== src/Core/Display.antt =====
-- The texts of the failures of a run: `Display` in crates/propsim-core/src/backend.rs, plan.rs and
-- seed.rs.
use propsim.Base.{Option, none, some, List, [], ◌∷◌, ◌++◌, Text, codes}
use propsim.Core.Plan.{Scenario}
use propsim.Core.Seed.{display}
use propsim.Core.Backend.{
  BackendError, white_box_oracles_on_black_box_executor, RunFailure, negotiation, violation,
  no_executor,
}

-- `names.join(", ")`.
unfoldable pub join : List Text → Text
join [] = []
join (name ∷ []) = name
join (name ∷ next ∷ names) = name ++ (codes ", " ++ join (next ∷ names))

unfoldable pub display_error : BackendError → Text
display_error (white_box_oracles_on_black_box_executor names) =
    codes
      "the following oracle(s) read internal node state, but the chosen executor is black-box (produces no world snapshots): "
    ++ (join names ++ codes ". Use the deterministic executor, or target a history-based oracle.")

unfoldable pub display_failure : RunFailure → Text
display_failure (negotiation e) = display_error e
display_failure (violation name seed sc) =
    codes "FAILED property `"
    ++ (name ++ (codes "`  (re-run: PROPSIM_SEED=" ++ (display seed ++ codes ")")))
display_failure no_executor =
    codes
      "no executor available: this build ships only the propsim-core contract (Tier 1). Add the deterministic executor (propsim-sim) to run plans."

-- `RunFailure::scenario`.
unfoldable pub failed_scenario : RunFailure → Option Scenario
failed_scenario (violation name seed sc) = some sc
failed_scenario other = none

-- `SeedParseError`, with the text that it keeps.
unfoldable pub display_seed_error : Text → Text
display_seed_error text =
    codes "invalid seed `" ++ (text ++ codes "`: expected a u64, optionally 0x-prefixed")
