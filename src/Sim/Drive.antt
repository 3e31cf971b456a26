-- ===== src/Sim/Drive.antt =====
-- crates/propsim-sim/src/lib.rs: `drive` and the shrinking of a failure. The result of a run may
-- also be that the model's fuel runs out or that the program panics on an index out of bounds. The
-- workload is what the third-party strategy generates for a seed, and `pinned` is the seed that the
-- environment's PROPSIM_SEED holds, if it holds one.
pub mod Shrink
pub mod Correct
pub mod Rerun
use Prim.Native.Nat.{bit_xor}
use propsim.Base.{
  ℕ, zero, suc, ◌+◌, ◌-◌, max, Bool, true, false, not, ◌&&◌, ◌||◌, Option, none, some, List, [],
  ◌∷◌, ◌++◌, Text, text_eq, length, if◌then◌else◌, ◌==◌,
}
use propsim.History.{History, OpEntry, OpKind, is_invoke}
use propsim.Core.Node.{Node, NodeId, Duration, ClientCodec}
use propsim.Core.Faults.{Faults, swarm}
use propsim.Core.Plan.{PlanData, FrozenOp, frozen_op, Scenario, scenario, from_seed, Seed, NodeDef}
use propsim.Core.Oracle.{Oracle, RunOutput, plain_output, NamedVerdict, named_verdict, Verdict}
use propsim.Core.Property.{Property, Event}
use propsim.Core.World.{WorldTrace}
use propsim.Core.Backend.{Backend, Report, RunFailure, violation}
use propsim.Sim.Rng.{new, next}
use propsim.Sim.Properties.{evaluate_properties}
use propsim.Sim.Driver.Run.{
  TypedRun, RunResult, ran, no_executor, out_of_bounds, out_of_fuel, run_deterministic,
}

pub data Outcome (A : Type 0) : Type 0 where
  value : A → Outcome A
  panic : Outcome A
  fuel : Outcome A

infixl 1 ◌>>=◌
abbrev pub ◌>>=◌ : {A B : Type 0} → Outcome A → (A → Outcome B) → Outcome B
value a >>= k = k a
panic >>= k = panic
fuel >>= k = fuel

-- `Result`: a report or a failure.
pub data Driven : Type 0 where
  report : Report → Driven
  failure : RunFailure → Driven

-- The run, none where there is no executor for the node definition.
abbrev pub outcome : {S : Type 0} → RunResult S → Outcome (Option (TypedRun S))
outcome (ran r) = value (some r)
outcome no_executor = value none
outcome out_of_bounds = panic
outcome out_of_fuel = fuel

-- The ops of the recorded invokes.
unfoldable pub collect_ops : History → List FrozenOp
collect_ops [] = []
collect_ops (e ∷ h) =
    let rest = collect_ops h in
    if is_invoke e.kind then frozen_op e.process e.value ∷ rest else rest

abbrev pub or_swarm : Option Faults → Faults
unfolding swarm
or_swarm none = swarm
or_swarm (some f) = f

unfoldable pub data_with_ops : PlanData → List FrozenOp → PlanData
unfolding scenario
data_with_ops data' ops = record data' { replay = some (scenario ops (or_swarm data'.faults)) }

unfoldable pub effective_seed : Option Seed → ℕ → Seed
effective_seed pinned s =
    let derived = (next (new (bit_xor 0x5EED_0000 s))).0 in
    if s == 0 then (elim pinned [ none ↦ derived | some seed ↦ seed ]) else derived

-- The ops but the last: `full[..len - 1]`.
unfoldable pub prefix : {A : Type 0} → ℕ → List A → List A
prefix zero xs = []
prefix (suc n) [] = []
prefix (suc n) (x ∷ xs) = x ∷ prefix n xs

unfoldable pub oracle_verdicts : List Oracle → RunOutput → List NamedVerdict
oracle_verdicts [] out = []
oracle_verdicts (o ∷ os) out = named_verdict o.name (o.check out) ∷ oracle_verdicts os out

-- Whether some verdict of that name is invalid.
unfoldable pub any_failed : Text → List NamedVerdict → Bool
unfolding text_eq
any_failed name [] = false
any_failed name (v ∷ vs) = text_eq v.name name && not v.verdict.valid || any_failed name vs

-- The first verdict that is invalid.
unfoldable pub first_failed : List NamedVerdict → Option NamedVerdict
first_failed [] = none
first_failed (v ∷ vs) = if v.verdict.valid then first_failed vs else some v

module _ (N : Node) (codec : Option (ClientCodec N.Op N.Response)) (debug_time : Duration → Text)
    (debug_anchor : Option Event → Text) (fuel_each : ℕ) (data' : PlanData) (def : Option NodeDef)
    (properties : List (Property N.State)) (backend : Backend) where
  open N use {State}

  -- The verdicts on a run: the properties', then the oracles' on its history.
  unfoldable pub property_verdicts : TypedRun State → List NamedVerdict
  property_verdicts run =
      evaluate_properties debug_time debug_anchor properties
        (record { frames = run.frames; history = run.history }) run.events

  unfoldable pub history_verdicts : TypedRun State → List NamedVerdict
  history_verdicts run = oracle_verdicts backend.oracles (plain_output run.history run.seed)

  -- Whether the ops, replayed at the seed, fail the property or oracle of that name again.
  unfoldable pub still_fails : Seed → Text → List FrozenOp → Outcome Bool
  still_fails seed name ops =
      outcome (run_deterministic N codec fuel_each (data_with_ops data' ops) def none seed) >>= λ r.
      elim r [
        | none ↦ value false
        | some run ↦
            value
              (any_failed name (property_verdicts run) || any_failed name (history_verdicts run))
      ]

  -- The loop over the length, with the best ops so far.
  unfoldable pub shrink_loop :
      Seed → Text → List FrozenOp → ℕ → List FrozenOp → Outcome (List FrozenOp)
  shrink_loop seed name full zero best = value best
  shrink_loop seed name full (suc len) best = still_fails seed name (prefix len full) >>= λ fails.
      elim fails [ true ↦ shrink_loop seed name full len (prefix len full) | false ↦ value best ]

  module _ (workload : Option (Seed → List FrozenOp)) (pinned : Option Seed) where
    -- A run of the plan at a seed.
    unfoldable pub run_at : Seed → RunResult State
    run_at seed = run_deterministic N codec fuel_each data' def (at_seed workload seed) seed
      where
        at_seed : Option (Seed → List FrozenOp) → Seed → Option (List FrozenOp)
        at_seed none s = none
        at_seed (some generate) s = some (generate s)

    unfoldable pub full_ops : Option (TypedRun State) → List FrozenOp
    full_ops none = []
    full_ops (some run) = collect_ops run.history

    unfoldable pub shrink_scenario : Seed → Text → Outcome Scenario
    unfolding scenario from_seed
    shrink_scenario seed name = outcome (run_at seed) >>= λ r.
        shrink_loop seed name (full_ops r) (length (full_ops r)) (full_ops r) >>= λ best.
        value (from_seed (scenario best (or_swarm data'.faults)) seed)

    -- What follows a run: the first failure ends the drive with a shrunk scenario; otherwise the
    -- verdicts are kept.
    unfoldable pub judge :
        Seed
        → TypedRun State
        → List NamedVerdict
        → (List NamedVerdict → Outcome Driven)
        → Outcome Driven
    judge seed run verdicts continue =
        elim (first_failed (property_verdicts run ++ history_verdicts run)) [
          | some v ↦ shrink_scenario seed v.name >>= λ s. value (failure (violation v.name seed s))
          | none ↦ continue (verdicts ++ (property_verdicts run ++ history_verdicts run))
        ]

    -- The loop over the seeds from index `s`, with `left` of them to go.
    unfoldable pub drive_loop : ℕ → ℕ → List NamedVerdict → Outcome Driven
    drive_loop zero s verdicts = value (report (record { verdicts = verdicts; seeds_run = s }))
    drive_loop (suc left) s verdicts = outcome (run_at (effective_seed pinned s)) >>= λ r. elim r [
      | none ↦ value (failure RunFailure.no_executor)
      | some run ↦ judge (effective_seed pinned s) run verdicts (λ vs. drive_loop left (suc s) vs)
    ]

    unfoldable pub drive : Outcome Driven
    drive = drive_loop (max data'.seeds 1) 0 []
