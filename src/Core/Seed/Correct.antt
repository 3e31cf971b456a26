-- ===== src/Core/Seed/Correct.antt =====
-- A seed's text names the seed.
use propsim.Base.{ℕ, ◌^◌, ◌<◌, ◌≡◌, refl, arith, All, All-map, length}
use propsim.Numerals.{padded_hex, digit_value}
use propsim.Numerals.Correct.{IsDigit}
use propsim.Numerals.Padded.{padded_hex-IsDigit, length-padded_hex, parse_u64-padded_hex}
use propsim.Texts.{is_white, strip_prefix, trim-All, IsInk}
use propsim.Core.Plan.{Seed}
use propsim.Core.Seed.{parsed, display, from_str}

IsDigit-IsInk : (c : ℕ) → IsDigit 16 c → IsInk c
unfolding digit_value is_white
IsDigit-IsInk c h = ground arith

display-IsInk : (seed : Seed) → All IsInk (display seed)
unfolding display is_white
display-IsInk seed = (
  refl,
  (refl, All-map (IsDigit 16) IsInk (padded_hex seed) IsDigit-IsInk (padded_hex-IsDigit seed)),
)

-- Every seed is read back from its text, which has 18 characters whatever the seed.
pub from_str-display :
    (seed : Seed)
    → seed < 2 ^ 64
    → (from_str (display seed) ≡ parsed seed) × (length (display seed) ≡ 18)
unfolding display from_str strip_prefix
from_str-display seed h = (
  rw (trim-All (display seed) (display-IsInk seed), parse_u64-padded_hex seed h) refl,
  omega (arith, length-padded_hex seed h),
)
