-- ===== src/Core/Artifacts.antt =====
-- crates/propsim-core/src/executor.rs: `Artifacts`, a `BTreeMap` from names to paths. The names are
-- in the order of their bytes, which in UTF-8 is that of their characters.
use propsim.Base.{
  Bool, true, false, ◌&&◌, ◌||◌, ◌==◌, ltb, Option, none, some, List, [], ◌∷◌, Text, text_eq,
  if◌then◌else◌,
}

unfoldable pub text_lt : Text → Text → Bool
text_lt s [] = false
text_lt [] (d ∷ t) = true
text_lt (c ∷ s) (d ∷ t) = ltb c d || c == d && text_lt s t

-- A path is its text.
pub record Artifacts : Type 0 where
  pub files : List (Text × Text)

abbrev pub new : Artifacts
new = record { files = [] }

-- `BTreeMap::insert` and `BTreeMap::get` of the standard library, on the pairs in order.

unfoldable pub put : Text → Text → List (Text × Text) → List (Text × Text)
put name path [] = (name, path) ∷ []
put name path ((k, v) ∷ m) =
    if text_lt name k
    then (name, path) ∷ (k, v) ∷ m
    else if text_eq name k
    then (name, path) ∷ m
    else (k, v) ∷ put name path m

unfoldable pub insert : Artifacts → Text → Text → Artifacts
insert a name path = record { files = put name path a.files }

unfoldable pub find : Text → List (Text × Text) → Option Text
find name [] = none
find name ((k, v) ∷ m) = if text_eq name k then some v else find name m

unfoldable pub get : Artifacts → Text → Option Text
get a name = find name a.files

-- `iter`, to its end.
unfoldable pub iter : Artifacts → List (Text × Text)
iter a = a.files
