-- ===== src/Sim/Properties/Correct.antt =====
-- What a verdict on a property says of the frames.
use propsim.Base.{
  ℕ, ◌+◌, ◌≤◌, ◌≡◌, refl, ◌↔◌, ◌⊎◌, inl, inr, Bool-cases, Option-cases, Bool, true, Option, none,
  List, [], ◌∷◌, Text, arith, All,
}
use propsim.History.{History}
use propsim.Core.Node.{Duration}
use propsim.Core.Oracle.{pass, invalid, with_witness}
use propsim.Core.Property.{Property, PropertyKind, always, sometimes, eventually_within, Event}
use propsim.Core.World.{World, WorldTrace}
use propsim.Sim.Scheduler.{RunEvent}
use propsim.Sim.Properties.{
  world_at, first_false, any_within, any_frame, anchor_time, always_verdict, evaluate_one,
}

-- Some frame satisfies the predicate.

abbrev pub Some : {A : Type 0} → (A → Type 0) → List A → Type 0
Some P [] = ⊥
Some P (x ∷ xs) = P x ⊎ Some P xs

module _ {S : Type 0} where
  -- The predicate of a property holds in the world of a frame.
  abbrev pub Holds : Property S → WorldTrace S → Duration × List S → Type 0
  Holds p trace frame = p.predicate (world_at trace.history frame) ≡ true

  -- What a property claims of the frames of a run.
  abbrev pub Claims : Property S → WorldTrace S → List RunEvent → PropertyKind → Type 0
  Claims p trace events always = All (Holds p trace) trace.frames
  Claims p trace events sometimes = Some (Holds p trace) trace.frames
  Claims p trace events (eventually_within deadline) =
      Some
        (λ frame.
          Holds p trace frame
          × (anchor_time p.after events ≤ frame.0)
          × (frame.0 ≤ anchor_time p.after events + deadline))
        trace.frames

  first_false_lem :
      (p : World S → Bool) (h : History) (fs : List (Duration × List S))
      → (first_false p h fs ≡ none) ↔ All (λ f. p (world_at h f) ≡ true) fs
  unfolding first_false
  first_false_lem p h [] = (λ e. tt, λ a. refl)
  first_false_lem p h ((t, nodes) ∷ rest) = elim (Bool-cases (p (world_at h (t, nodes)))) [
    | inl holds ↦
        rw (holds, first_false)
          (λ e. (refl, (first_false_lem p h rest).0 e), λ a. (first_false_lem p h rest).1 a.1)
    | inr fails ↦ rw (fails, first_false) (λ e. cc, λ a. cc)
  ]

  any_frame_lem :
      (p : World S → Bool) (h : History) (fs : List (Duration × List S))
      → (any_frame p h fs ≡ true) ↔ Some (λ f. p (world_at h f) ≡ true) fs
  unfolding any_frame
  any_frame_lem p h [] = (λ e. cc, λ a. absurd a)
  any_frame_lem p h ((t, nodes) ∷ rest) = ground (arith, any_frame_lem p h rest)

  any_within_lem :
      (p : World S → Bool) (h : History) (lo hi : ℕ) (fs : List (Duration × List S))
      → (any_within p h lo hi fs ≡ true)
        ↔ Some (λ f. (p (world_at h f) ≡ true) × (lo ≤ f.0) × (f.0 ≤ hi)) fs
  unfolding any_within
  any_within_lem p h lo hi [] = (λ e. cc, λ a. absurd a)
  any_within_lem p h lo hi ((t, nodes) ∷ rest) = ground (arith, any_within_lem p h lo hi rest)

module _ {S : Type 0} (debug : Duration → Text) (debug_anchor : Option Event → Text) where
  evaluate_kind :
      (p : Property S) (trace : WorldTrace S) (events : List RunEvent) (k : PropertyKind)
      → p.kind ≡ k
      → ((evaluate_one debug debug_anchor p trace events).valid ≡ true) ↔ Claims p trace events k
  unfolding evaluate_one always_verdict pass invalid with_witness
  evaluate_kind p trace events always e =
      let (sound, complete) = first_false_lem p.predicate trace.history trace.frames in
      elim (Option-cases (first_false p.predicate trace.history trace.frames)) [
        | inl none_false ↦ rw (e, none_false) (λ v. sound none_false, λ c. refl)
        | inr (t, found) ↦ rw (e, found) (λ v. cc, λ c. let z = complete c in cc)
      ]
  evaluate_kind p trace events sometimes e =
      let (sound, complete) = any_frame_lem p.predicate trace.history trace.frames in
      elim (Bool-cases (any_frame p.predicate trace.history trace.frames)) [
        | inl met ↦ rw (e, met) (λ v. sound met, λ c. refl)
        | inr unmet ↦ rw (e, unmet) (λ v. cc, λ c. let z = complete c in cc)
      ]
  evaluate_kind p trace events (eventually_within deadline) e =
      let start = anchor_time p.after events in
      let (sound, complete) =
        any_within_lem p.predicate trace.history start (start + deadline) trace.frames in
      elim (Bool-cases
        (any_within p.predicate trace.history start (start + deadline) trace.frames)) [
          | inl met ↦ rw (e, met) (λ v. sound met, λ c. refl)
          | inr unmet ↦ rw (e, unmet) (λ v. cc, λ c. let z = complete c in cc)
        ]

  -- The verdict on a property is valid exactly if the frames satisfy what its kind claims: every
  -- frame, some frame, or some frame from the anchor to the deadline after it.
  pub evaluate_one-Claims :
      (p : Property S) (trace : WorldTrace S) (events : List RunEvent)
      → ((evaluate_one debug debug_anchor p trace events).valid ≡ true)
        ↔ Claims p trace events p.kind
  evaluate_one-Claims p trace events = evaluate_kind p trace events p.kind refl
