-- ===== src/Core/Property.antt =====
-- crates/propsim-core/src/property_impl.rs: properties of the worlds of a run.
use propsim.Base.{Bool, Option, none, some, Text}
use propsim.Core.Node.{Duration}
use propsim.Core.World.{World}

pub data PropertyKind : Type 0 where
  always sometimes : PropertyKind
  eventually_within : Duration → PropertyKind

pub data Event : Type 0 where
  network_healed node_rejoined : Event
  custom : Text → Event

pub record Property (S : Type 0) : Type 0 where
  pub name : Text
  pub kind : PropertyKind
  pub predicate : World S → Bool
  pub after : Option Event

module _ {S : Type 0} where
  -- The three constructors take their kind; `after` starts as none.
  unfoldable pub property : PropertyKind → Text → (World S → Bool) → Property S
  property kind name predicate = record {
    name = name;
    kind = kind;
    predicate = predicate;
    after = none;
  }

  -- `Property::after`.
  unfoldable pub anchored : Property S → Event → Property S
  anchored p event = record p { after = some event }
