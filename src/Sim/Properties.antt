-- ===== src/Sim/Properties.antt =====
-- crates/propsim-sim/src/properties.rs: properties over the frames of a finished run. The `Debug`
-- forms of a duration and of the anchor are arguments.
pub mod Correct
use propsim.Base.{
  ℕ, zero, ◌+◌, Bool, true, false, not, ◌&&◌, ◌||◌, Option, none, some, List, [], ◌∷◌, ◌++◌, Text,
  ltb, if◌then◌else◌, map, codes,
}
use propsim.History.{History}
use propsim.Core.Node.{Duration}
use propsim.Core.Oracle.{
  Verdict, Witness, text, NamedVerdict, named_verdict, pass, invalid, with_witness,
  anomaly_with_detail,
}
use propsim.Core.Property.{Property, PropertyKind, always, sometimes, eventually_within, Event}
use propsim.Core.World.{World, WorldTrace, new as new_world}
use propsim.Sim.Scheduler.{RunEvent}

-- The virtual time of the first event that an anchor names, 0 without one.
unfoldable pub find_anchor : Event → List RunEvent → Duration
find_anchor event [] = 0
find_anchor Event.network_healed (RunEvent.network_healed t ∷ rest) = t
find_anchor Event.node_rejoined (RunEvent.node_rejoined t n ∷ rest) = t
find_anchor event (_ ∷ rest) = find_anchor event rest

unfoldable pub anchor_time : Option Event → List RunEvent → Duration
anchor_time none events = 0
anchor_time (some event) events = find_anchor event events

module _ {S : Type 0} where
  -- The world of a frame; the history is that of the whole run.
  abbrev pub world_at : History → Duration × List S → World S
  world_at h (t, nodes) = new_world nodes h t

  -- The first frame at which the predicate is false.
  unfoldable pub first_false :
      (World S → Bool) → History → List (Duration × List S) → Option Duration
  first_false p h [] = none
  first_false p h ((t, nodes) ∷ rest) =
      if not (p (world_at h (t, nodes))) then some t else first_false p h rest

  -- `frames.iter().any(..)`, between the two times.
  unfoldable pub any_within :
      (World S → Bool) → History → Duration → Duration → List (Duration × List S) → Bool
  any_within p h lo hi [] = false
  any_within p h lo hi ((t, nodes) ∷ rest) =
      (if ltb t lo || ltb hi t then false else p (world_at h (t, nodes)))
      || any_within p h lo hi rest

  unfoldable pub any_frame : (World S → Bool) → History → List (Duration × List S) → Bool
  any_frame p h [] = false
  any_frame p h ((t, nodes) ∷ rest) = p (world_at h (t, nodes)) || any_frame p h rest

module _ (debug : Duration → Text) where
  unfoldable pub always_verdict : Text → Option Duration → Verdict
  always_verdict name none = pass
  always_verdict name (some t) =
      with_witness
        (invalid (
          anomaly_with_detail (codes "invariant-violated")
            (codes "`" ++ name ++ codes "` false at t=" ++ debug t)
          ∷ []))
        (text (codes "property `" ++ name ++ codes "` (always) violated at virtual t=" ++ debug t))

module _ {S : Type 0} (debug : Duration → Text) (debug_anchor : Option Event → Text) where
  unfoldable pub evaluate_one : Property S → WorldTrace S → List RunEvent → Verdict
  evaluate_one p trace events = elim p.kind [
    | always ↦ always_verdict debug p.name (first_false p.predicate trace.history trace.frames)
    | sometimes ↦
        if any_frame p.predicate trace.history trace.frames
        then pass
        else invalid (
            anomaly_with_detail (codes "reachability-unmet")
              (codes "`" ++ p.name ++ codes "` never held in any state")
            ∷ [])
    | eventually_within deadline ↦
        let start = anchor_time p.after events in
        if any_within p.predicate trace.history start (start + deadline) trace.frames
        then with_witness pass (text (codes "deadline evaluated against virtual time"))
        else invalid (
            anomaly_with_detail (codes "deadline-exceeded") (
              codes "`"
              ++ p.name
              ++ codes "` not satisfied within "
              ++ debug deadline
              ++ codes " of "
              ++ debug_anchor p.after
              ++ codes " (virtual time)")
            ∷ [])
  ]

  unfoldable pub evaluate_properties :
      List (Property S) → WorldTrace S → List RunEvent → List NamedVerdict
  evaluate_properties [] trace events = []
  evaluate_properties (p ∷ ps) trace events =
      named_verdict p.name (evaluate_one p trace events) ∷ evaluate_properties ps trace events
