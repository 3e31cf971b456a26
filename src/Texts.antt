-- ===== src/Texts.antt =====
-- The standard library's operations on texts that crates/propsim-history and
-- crates/propsim-core/src/seed.rs call.
use propsim.Base.{
  ℕ, ◌≡◌, refl, Bool, false, ◌&&◌, ◌||◌, ◌==◌, leb, Option, none, some, Text, [], ◌∷◌, All,
  if◌then◌else◌,
}

-- `char::is_whitespace`: the characters with Unicode's property White_Space.

unfoldable pub is_white : ℕ → Bool
is_white c =
    leb 9 c && leb c 13
    || c == 0x20
    || c == 0x85
    || c == 0xA0
    || c == 0x1680
    || leb 0x2000 c && leb c 0x200A
    || c == 0x2028
    || c == 0x2029
    || c == 0x202F
    || c == 0x205F
    || c == 0x3000

unfoldable pub trim_start : Text → Text
trim_start [] = []
trim_start (c ∷ cs) = if is_white c then trim_start cs else c ∷ cs

abbrev pub end_at : ℕ → Text → Text
end_at c [] = if is_white c then [] else c ∷ []
end_at c (d ∷ ds) = c ∷ d ∷ ds

unfoldable pub trim_end : Text → Text
trim_end [] = []
trim_end (c ∷ cs) = end_at c (trim_end cs)

unfoldable pub trim : Text → Text
trim s = trim_end (trim_start s)

unfoldable pub strip_prefix : Text → Text → Option Text
strip_prefix [] s = some s
strip_prefix (c ∷ cs) [] = none
strip_prefix (c ∷ cs) (d ∷ ds) = if c == d then strip_prefix cs ds else none

abbrev pub IsInk : ℕ → Type 0
IsInk c = is_white c ≡ false

trim_end-All : (s : Text) → All IsInk s → trim_end s ≡ s
unfolding trim_end
trim_end-All [] h = refl
trim_end-All (c ∷ []) h = rw h.0 refl
trim_end-All (c ∷ d ∷ ds) h = rw (trim_end-All (d ∷ ds) h.1) refl

-- A text without white space is left as it is.
pub trim-All : (s : Text) → All IsInk s → trim s ≡ s
unfolding trim trim_start trim_end
trim-All [] h = refl
trim-All (c ∷ cs) h = rw h.0 (trim_end-All (c ∷ cs) h)
