-- ===== src/Tests/Replay.antt =====
-- A scenario with an outage, replayed on a plan that has no faults of its own.
use propsim.Base.{◌≡◌, refl, none, some}
use propsim.Core.Plan.{PlanData, Scenario, scenario, replay_with}
use propsim.Core.Faults.{scripted}
use propsim.Sim.Driver.{run_horizon, latest_event}
use propsim.Sim.Driver.Run.{run_deterministic}
use propsim.Sim.Driver.Run.Replay.{run-replays_ops}
use propsim.Tests.Run.{program, counter, counter_codec, plan, ops, outage}

abbrev calm_plan : PlanData
calm_plan = record plan { faults = none }

abbrev with_outage : Scenario
unfolding program scenario
with_outage = scenario ops outage

abbrev without_faults : Scenario
unfolding program scenario
without_faults = scenario ops scripted

same_horizon :
    run_horizon (replay_with calm_plan with_outage)
    ≡ run_horizon (replay_with calm_plan without_faults)
unfolding program scenario replay_with run_horizon latest_event
same_horizon = refl

same_ops : with_outage.ops ≡ without_faults.ops
unfolding program scenario
same_ops = refl

run-replays_ops_example :
    run_deterministic counter counter_codec 40 (replay_with calm_plan with_outage) none none 7
    ≡ run_deterministic counter counter_codec 40
        (replay_with calm_plan without_faults)
        none
        (some ops)
        7
run-replays_ops_example =
    run-replays_ops counter counter_codec 40 calm_plan none none (some ops) 7 with_outage
      without_faults same_ops same_horizon
