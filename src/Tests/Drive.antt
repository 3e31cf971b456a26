-- ===== src/Tests/Drive.antt =====
-- A drive of the counter that finds a violation and shrinks it: `drive` of
-- crates/propsim-sim/src/lib.rs at work.
use propsim.Base.{
  ℕ, ◌≡◌, refl, ◌≢◌, ◌↔◌, ◌⊎◌, Bool, true, false, Option, none, some, List, [], ◌∷◌, Text, leb,
  codes,
}
use propsim.History.Values.{Value, pos}
use propsim.Core.Node.{Duration}
use propsim.Core.Faults.{swarm}
use propsim.Core.Oracle.{
  Oracle, Needs, Verdict, pass, invalid, with_witness, anomaly_with_detail, plain_output,
}
use propsim.Core.Plan.{frozen_op, Scenario, scenario, from_seed}
use propsim.Core.Property.{Property, always, Event, property}
use propsim.Core.World.{World}
use propsim.Core.Backend.{Backend, Executor, custom, build, violation, deterministic, real_cluster}
use propsim.Facade.Negotiation.{WhiteBox, Rejected, try_run-Rejected}
use propsim.Sim.Properties.{first_false, always_verdict, evaluate_one, evaluate_properties}
use propsim.Sim.Drive.{
  value, failure, collect_ops, data_with_ops, effective_seed, prefix, oracle_verdicts, any_failed,
  first_failed, property_verdicts, history_verdicts, still_fails, shrink_loop, run_at, full_ops,
  shrink_scenario, judge, drive_loop, drive,
}
use propsim.Sim.Drive.Correct.{Judged, drive-Judged}
use propsim.Tests.Run.{outage, counter, counter_codec, ops, plan}
use propsim.Tests.Run

unfoldable pub program : Unit {0}
unfolding Run.program pass invalid with_witness anomaly_with_detail scenario from_seed property
    custom build first_false always_verdict evaluate_one evaluate_properties collect_ops
    data_with_ops effective_seed prefix oracle_verdicts any_failed first_failed property_verdicts
    history_verdicts still_fails shrink_loop run_at full_ops shrink_scenario judge drive_loop drive
    swarm
program = tt

abbrev pub debug : Duration → Text
debug t = []

abbrev pub debug_anchor : Option Event → Text
debug_anchor e = []

-- The first node has not counted beyond two.
abbrev low : List ℕ → Bool
low [] = true
low (n ∷ ns) = leb n 2

abbrev pub stays_low : Property ℕ
unfolding program
stays_low = property always (codes "low") (λ (w : World ℕ). low w.nodes)

abbrev history_only : Executor
history_only = record { capabilities = deterministic; run = λ p seed. plain_output [] seed }

abbrev backend : Backend
unfolding program
backend = build (custom history_only)

-- One op is enough for the violation.
abbrev shrunk : Scenario
unfolding program
shrunk = from_seed (scenario (frozen_op 0 (Value.int (pos 3)) ∷ []) outage) 7

driven_violation :
    drive counter counter_codec debug debug_anchor 40 plan none
      (stays_low ∷ [])
      backend
      (some (λ seed. ops))
      (some 7)
    ≡ value (failure (violation (codes "low") 7 shrunk))
unfolding program
driven_violation = refl

drive-Judged_example :
    Judged counter counter_codec debug debug_anchor 40 plan none
      (stays_low ∷ [])
      backend
      (some (λ seed. ops))
      (some 7)
      1
      0
      []
      (failure (violation (codes "low") 7 shrunk))
drive-Judged_example =
    drive-Judged counter counter_codec debug debug_anchor 40 plan none (stays_low ∷ []) backend
      (some (λ seed. ops)) (some 7) (failure (violation (codes "low") 7 shrunk)) driven_violation

abbrev snooping : Oracle
snooping = record { name = codes "snoop"; needs = Needs.world; check = λ out. out_verdict }
  where
    out_verdict : Verdict
    out_verdict = record { valid = true; anomalies = []; witness = none }

abbrev black_box : Backend
black_box = record {
  executor = record history_only { capabilities = real_cluster };
  oracles = snooping ∷ [];
}

abbrev no_properties : List (Property ℕ)
no_properties = []

try_run-Rejected_example :
    Rejected counter counter_codec debug debug_anchor 40 plan none no_properties black_box none none
    ↔ ((false ≡ false) × (WhiteBox (snooping ∷ []) ⊎ (no_properties ≢ [])))
try_run-Rejected_example =
    try_run-Rejected counter counter_codec debug debug_anchor 40 plan none no_properties black_box
      none none
