-- ===== src/Facade/Negotiation.antt =====
-- When the negotiation rejects a plan.
use propsim.Base.{
  ℕ, ◌≡◌, refl, sym, ◌∙◌, ◌≢◌, ◌↔◌, ◌⊎◌, inl, inr, Bool, true, false, Option, none, some, List, [],
  ◌∷◌, Text, Bool-cases,
}
use propsim.Core.Node.{Node, Duration, ClientCodec}
use propsim.Core.Plan.{PlanData, FrozenOp, Seed, NodeDef}
use propsim.Core.Oracle.{Oracle}
use propsim.Core.Property.{Property, Event}
use propsim.Core.Backend.{
  Backend, BackendError, negotiation, reads_world, white_box_oracles_on_black_box_executor,
  offenders, validate,
}
use propsim.Sim.Drive.{Outcome, value, Driven, failure}
use propsim.Sim.Drive.Correct.{drive-Judged}
use propsim.Facade.{property_names, negotiate_properties, drive_erased, try_run}

-- Some oracle of the list reads the world.

abbrev pub WhiteBox : List Oracle → Type 0
WhiteBox [] = ⊥
WhiteBox (o ∷ os) = (reads_world o.needs ≡ true) ⊎ WhiteBox os

offenders-WhiteBox : (os : List Oracle) → (offenders os ≡ [] → ⊥) → WhiteBox os
unfolding offenders
offenders-WhiteBox [] h = h refl
offenders-WhiteBox (o ∷ os) h = elim (Bool-cases (reads_world o.needs)) [
  | inl white ↦ inl white
  | inr black ↦ inr (offenders-WhiteBox os (λ e. h (rw (black, offenders, e) refl)))
]

offenders-none : (os : List Oracle) → offenders os ≡ [] → WhiteBox os → ⊥
unfolding offenders
offenders-none [] e w = w
offenders-none (o ∷ os) e (inl white) = let k = rw (white, offenders) at e in cc
offenders-none (o ∷ os) e (inr w) = elim (Bool-cases (reads_world o.needs)) [
  | inl white ↦ let k = rw (white, offenders) at e in cc
  | inr black ↦ offenders-none os (rw (black, offenders) at e) w
]

List-cases : {A : Type 0} (xs : List A) → (xs ≡ []) ⊎ ((x : A) × (ys : List A) × (xs ≡ x ∷ ys))
List-cases [] = inl refl
List-cases (x ∷ xs) = inr (x, xs, refl)

validate-white :
    (b : Backend)
    → b.executor.capabilities.world_snapshots ≡ true
    → validate b.executor b.oracles ≡ none
unfolding validate
validate-white b white = rw white refl

negotiate-white :
    {S : Type 0} (b : Bool)
    → b ≡ true
    → (ps : List (Property S)) (typed : Outcome Driven) (erased : Driven)
    → negotiate_properties b ps typed erased ≡ typed
unfolding negotiate_properties
negotiate-white true white ps typed erased = refl
negotiate-white false white ps typed erased = cc

-- What the negotiation of oracles says.
validate-black :
    (b : Backend)
    → b.executor.capabilities.world_snapshots ≡ false
    → ((validate b.executor b.oracles ≡ none) × (WhiteBox b.oracles → ⊥))
      ⊎ ((e : BackendError) × (validate b.executor b.oracles ≡ some e) × WhiteBox b.oracles)
unfolding validate
validate-black b black = elim (List-cases (offenders b.oracles)) [
  | inl clear ↦ inl (rw (black, clear) refl, offenders-none b.oracles clear)
  | inr (x, ys, found) ↦ inr (
    white_box_oracles_on_black_box_executor (x ∷ ys),
    rw (black, found) refl,
    offenders-WhiteBox b.oracles (λ e. let k = found in cc),
  )
]

module _ (N : Node) (codec : Option (ClientCodec N.Op N.Response)) (debug_time : Duration → Text)
    (debug_anchor : Option Event → Text) (fuel_each : ℕ) (data' : PlanData) (def : Option NodeDef)
    (properties : List (Property N.State)) (backend : Backend)
    (workload : Option (Seed → List FrozenOp)) (pinned : Option Seed) where
  abbrev tried : Outcome Driven
  tried =
      try_run N codec debug_time debug_anchor fuel_each data' def properties backend workload pinned

  abbrev pub Rejected : Type 0
  Rejected = (e : BackendError) × (tried ≡ value (failure (negotiation e)))

  white-not-Rejected : backend.executor.capabilities.world_snapshots ≡ true → Rejected → ⊥
  unfolding try_run
  white-not-Rejected white (e, h) =
      drive-Judged N codec debug_time debug_anchor fuel_each data' def properties backend workload
        pinned (failure (negotiation e))
        (sym (negotiate-white _ white properties _ _)
          ∙ (rw (validate-white backend white, try_run) at h))

  properties_decide :
      backend.executor.capabilities.world_snapshots ≡ false
      → validate backend.executor backend.oracles ≡ none
      → Rejected ↔ (properties ≢ [])
  unfolding try_run negotiate_properties drive_erased
  properties_decide black clear = elim (List-cases properties) [
    | inl empty ↦ (
      λ r. let h = rw (clear, black, empty, try_run) at r.1 in cc,
      λ some_property. absurd (some_property empty),
    )
    | inr (p, ps, found) ↦ (
      λ r e. let k = found in cc,
      λ some_property. (
        white_box_oracles_on_black_box_executor (property_names (p ∷ ps)),
        rw (clear, black, found, try_run) refl,
      ),
    )
  ]

  -- The negotiation rejects a plan exactly if the executor takes no snapshots of the world and an
  -- oracle reads the world or the plan has a property.
  pub try_run-Rejected : Rejected ↔ (
      (backend.executor.capabilities.world_snapshots ≡ false)
      × (WhiteBox backend.oracles ⊎ (properties ≢ [])))
  unfolding try_run
  try_run-Rejected = elim (Bool-cases backend.executor.capabilities.world_snapshots) [
    | inl white ↦ (λ r. absurd (white-not-Rejected white r), λ c. let k = c.0 in cc)
    | inr black ↦ elim (validate-black backend black) [
      | inl (clear, no_white) ↦
          let (to, from) = properties_decide black clear in
          (
            λ r. (black, inr (to r)),
            λ c. elim (c.1) [
              | inl w ↦ absurd (no_white w)
              | inr some_property ↦ from some_property
            ],
          )
      | inr (e, found, w) ↦ (λ r. (black, inl w), λ c. (e, rw (found, try_run) refl))
    ]
  ]
