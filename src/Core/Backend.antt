-- ===== src/Core/Backend.antt =====
-- crates/propsim-core/src/backend.rs, the capabilities of needs.rs, the trait of executor.rs, and
-- the reports and failures of plan.rs.
use propsim.Base.{ℕ, Bool, true, false, Option, none, some, List, [], ◌∷◌, ◌++◌, Text}
use propsim.Core.Plan.{PlanData, Scenario, Seed}
use propsim.Core.Oracle.{Oracle, Needs, RunOutput, NamedVerdict}

pub record Produces : Type 0 where
  pub world_snapshots : Bool
  pub history : Bool
  pub virtual_time : Bool
  pub seed_replayable : Bool

-- `Produces::DETERMINISTIC` and `Produces::REAL_CLUSTER`.
abbrev pub deterministic : Produces
deterministic = record {
  world_snapshots = true;
  history = true;
  virtual_time = true;
  seed_replayable = true;
}

abbrev pub real_cluster : Produces
real_cluster = record {
  world_snapshots = false;
  history = true;
  virtual_time = false;
  seed_replayable = false;
}

-- The trait `Executor`.
pub record Executor : Type 0 where
  pub capabilities : Produces
  pub run : PlanData → Seed → RunOutput

pub record Backend : Type 0 where
  pub executor : Executor
  pub oracles : List Oracle

pub record BackendBuilder : Type 0 where
  pub executor : Executor
  pub oracles : List Oracle

-- `Backend::custom`.
unfoldable pub custom : Executor → BackendBuilder
custom exec = record { executor = exec; oracles = [] }

-- `BackendBuilder::oracle`, and `boxed_oracle`, which does the same with a boxed one.
unfoldable pub attach : BackendBuilder → Oracle → BackendBuilder
attach b o = record b { oracles = b.oracles ++ o ∷ [] }

unfoldable pub build : BackendBuilder → Backend
build b = record { executor = b.executor; oracles = b.oracles }

pub data BackendError : Type 0 where
  white_box_oracles_on_black_box_executor : List Text → BackendError

abbrev pub reads_world : Needs → Bool
reads_world Needs.world = true
reads_world Needs.history = false

-- The names of the white-box oracles.
unfoldable pub offenders : List Oracle → List Text
offenders [] = []
offenders (o ∷ os) =
    let rest = offenders os in elim (reads_world o.needs) [ true ↦ o.name ∷ rest | false ↦ rest ]

abbrev rejection : List Text → Option BackendError
rejection [] = none
rejection names = some (white_box_oracles_on_black_box_executor names)

-- The error, if there is one.
unfoldable pub validate : Executor → List Oracle → Option BackendError
unfolding offenders
validate exec oracles = elim exec.capabilities.world_snapshots [
  | true ↦ none
  | false ↦ rejection (offenders oracles)
]

pub record Report : Type 0 where
  pub verdicts : List NamedVerdict
  pub seeds_run : ℕ

pub data RunFailure : Type 0 where
  negotiation : BackendError → RunFailure
  violation : Text → Seed → Scenario → RunFailure
  no_executor : RunFailure
