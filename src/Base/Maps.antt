-- ===== src/Base/Maps.antt =====
-- `BTreeMap` and `Vec` as the program uses them: maps as association lists over keys with an
-- equality test, the token map kept sorted, and tests of membership.
use Prim.Native.Nat.{ℕ}
use mathlib.Core.Path.{◌≡◌, refl}
use mathlib.Core.Logic.{◌↔◌}
use mathlib.Core.Bool.{Bool, true, false, ◌&&◌, ◌||◌}
use mathlib.Core.Option.{Option, none, some}
use mathlib.Core.List.{List, [], ◌∷◌}
use native.Mathlib.Omega.{arith}
use propsim.Base.Tests.{ltb, ◌==◌, if◌then◌else◌, Text, text_eq, text_eq_iff}

-- `Eq` of a key type.

pub record Keys (K : Type 0) : Type 0 where
  pub beq : K → K → Bool
  pub beq_iff : (a b : K) → (beq a b ≡ true) ↔ (a ≡ b)

abbrev pub pair_beq : ℕ × ℕ → ℕ × ℕ → Bool
pair_beq (a, b) (c, d) = a == c && b == d

pub pair_beq_iff : (a b : ℕ × ℕ) → (pair_beq a b ≡ true) ↔ (a ≡ b)
pair_beq_iff (a, b) (c, d) = ground arith

abbrev pub link_keys : Keys (ℕ × ℕ)
link_keys = record { beq = pair_beq; beq_iff = pair_beq_iff }

abbrev pub tag_beq : ℕ × Text → ℕ × Text → Bool
tag_beq (a, s) (b, t) = a == b && text_eq s t

pub tag_beq_iff : (a b : ℕ × Text) → (tag_beq a b ≡ true) ↔ (a ≡ b)
tag_beq_iff (a, s) (b, t) = ground (arith, text_eq_iff s t)

abbrev pub tag_keys : Keys (ℕ × Text)
tag_keys = record { beq = tag_beq; beq_iff = tag_beq_iff }

module _ {K V : Type 0} (e : Keys K) where
  unfoldable pub lookup : K → List (K × V) → Option V
  lookup k [] = none
  lookup k ((j, v) ∷ m) = if e.beq k j then some v else lookup k m

  unfoldable pub insert : K → V → List (K × V) → List (K × V)
  insert k v [] = (k, v) ∷ []
  insert k v ((j, w) ∷ m) = if e.beq k j then (k, v) ∷ m else (j, w) ∷ insert k v m

  pub lookup-insert :
      (k j : K) (v : V) (m : List (K × V))
      → lookup j (insert k v m) ≡ (if e.beq j k then some v else lookup j m)
  unfolding lookup insert
  lookup-insert k j v [] = refl
  lookup-insert k j v ((i, w) ∷ m) =
      ground (arith, e.beq_iff j k, e.beq_iff k i, e.beq_iff j i, lookup-insert k j v m)

-- A map with `u64` keys, in the order of the keys.
module _ {V : Type 0} where
  unfoldable pub find : ℕ → List (ℕ × V) → Option V
  find k [] = none
  find k ((j, v) ∷ m) = if k == j then some v else find k m

  unfoldable pub put : ℕ → V → List (ℕ × V) → List (ℕ × V)
  put k v [] = (k, v) ∷ []
  put k v ((j, w) ∷ m) =
      if ltb k j then (k, v) ∷ (j, w) ∷ m else if k == j then (k, v) ∷ m else (j, w) ∷ put k v m

  unfoldable pub remove : ℕ → List (ℕ × V) → List (ℕ × V)
  remove k [] = []
  remove k ((j, v) ∷ m) = if k == j then m else (j, v) ∷ remove k m

unfoldable pub contains : ℕ → List ℕ → Bool
contains a [] = false
contains a (x ∷ xs) = a == x || contains a xs
