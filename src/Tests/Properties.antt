-- ===== src/Tests/Properties.antt =====
-- Properties of a run of two nodes: crates/propsim-sim/src/properties.rs at work.
use propsim.Base.{ℕ, ◌≡◌, refl, ◌↔◌, Bool, true, false, Option, List, [], ◌∷◌, Text, leb, codes}
use propsim.Core.Node.{Duration, millis}
use propsim.Core.Oracle.{pass, invalid, with_witness, anomaly_with_detail}
use propsim.Core.Property.{Property, eventually_within, Event, property, anchored}
use propsim.Core.World.{World, WorldTrace}
use propsim.Sim.Scheduler.{RunEvent}
use propsim.Sim.Properties.{
  find_anchor, anchor_time, first_false, any_within, any_frame, always_verdict, evaluate_one,
}
use propsim.Sim.Properties.Correct.{Claims, evaluate_one-Claims}

program : Unit {0}
unfolding pass invalid with_witness anomaly_with_detail property anchored find_anchor anchor_time
    first_false any_within any_frame always_verdict evaluate_one
program = tt

abbrev debug : Duration → Text
debug t = t ∷ []

abbrev debug_anchor : Option Event → Text
debug_anchor e = codes "anchor"

-- The first node has counted to three.
abbrev counted : World ℕ → Bool
counted w = counted_in w.nodes
  where
    counted_in : List ℕ → Bool
    counted_in [] = false
    counted_in (n ∷ ns) = leb 3 n

abbrev trace : WorldTrace ℕ
trace = record {
  frames = (0, 0 ∷ 0 ∷ []) ∷ (millis 4, 3 ∷ 0 ∷ []) ∷ (millis 9, 5 ∷ 1 ∷ []) ∷ [];
  history = [];
}

abbrev healed : List RunEvent
healed = RunEvent.network_healed (millis 3) ∷ []

abbrev soon : Property ℕ
unfolding program
soon =
    anchored (property (eventually_within (millis 2)) (codes "counted") counted)
      Event.network_healed

verdicts :
    ((evaluate_one debug debug_anchor soon trace healed).valid ≡ true)
    × ((evaluate_one debug debug_anchor soon trace []).valid ≡ false)
unfolding program
verdicts = (refl, refl)

evaluate_one-Claims_example :
    ((evaluate_one debug debug_anchor soon trace healed).valid ≡ true)
    ↔ Claims soon trace healed soon.kind
evaluate_one-Claims_example = evaluate_one-Claims debug debug_anchor soon trace healed
