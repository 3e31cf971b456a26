-- ===== src/Numerals.antt =====
-- The standard library's conversions between integers and text that crates/propsim-history and
-- crates/propsim-core/src/seed.rs call: `to_string`, `{:016x}`, `parse` and `from_str_radix`.
pub mod Correct
pub mod Padded
use propsim.Base.{
  ℕ, zero, suc, ◌+◌, ◌-◌, ◌*◌, ◌/◌, ◌%◌, ◌^◌, Bool, true, false, ◌&&◌, ◌||◌, Option, none, some,
  List, [], ◌∷◌, ◌++◌, Text, ltb, leb, ◌==◌, if◌then◌else◌, length, replicate,
}
use propsim.History.Values.{ℤ, pos, negsuc}

-- The digit of a number below 36, in lower case.
unfoldable pub digit : ℕ → ℕ
digit d = if ltb d 10 then 48 + d else 87 + d

-- The digits of a number, most significant first; `n + 1` is fuel enough.
unfoldable pub show_loop : ℕ → ℕ → ℕ → Text
unfolding digit
show_loop zero base n = []
show_loop (suc fuel) base n =
    let more = show_loop fuel base (n / base) ++ digit (n % base) ∷ [] in
    if ltb n base then digit n ∷ [] else more

unfoldable pub show_radix : ℕ → ℕ → Text
show_radix base n = show_loop (suc n) base n

-- `{:016x}`.
unfoldable pub padded_hex : ℕ → Text
padded_hex n = let s = show_radix 16 n in replicate (16 - length s) b'0' ++ s

unfoldable pub show_int : ℤ → Text
show_int (pos n) = show_radix 10 n
show_int (negsuc n) = b'-' ∷ show_radix 10 (suc n)

-- The value of a digit; a base or more if it is none.
unfoldable pub digit_value : ℕ → ℕ
digit_value c =
    if leb 48 c && leb c 57
    then c - 48
    else if leb b'a' c && leb c b'z'
    then c - 87
    else if leb b'A' c && leb c b'Z'
    then c - 55
    else 36

-- The number that digits spell after `acc`. The source's checks against overflow in every round
-- come to one check of the whole, since the number does not fall.
unfoldable pub spell : ℕ → ℕ → Text → Option ℕ
unfolding digit_value
spell base acc [] = some acc
spell base acc (c ∷ cs) = elim (ltb (digit_value c) base) [
  | true ↦ spell base (acc * base + digit_value c) cs
  | false ↦ none
]

-- At least one digit.
unfoldable pub spell_all : ℕ → Text → Option ℕ
unfolding spell
spell_all base [] = none
spell_all base (c ∷ cs) = spell base 0 (c ∷ cs)

abbrev pub up_to : ℕ → Option ℕ → Option ℕ
up_to limit none = none
up_to limit (some n) = if leb n limit then some n else none

-- A plus is skipped.
abbrev pub without_plus : Text → Text
without_plus [] = []
without_plus (c ∷ cs) = if c == b'+' then cs else c ∷ cs

-- `u64::from_str_radix`, and `parse::<u64>` at base 10.
unfoldable pub parse_u64 : ℕ → Text → Option ℕ
parse_u64 base s = up_to (2 ^ 64 - 1) (spell_all base (without_plus s))

abbrev pub minus : ℕ → ℤ
minus zero = pos 0
minus (suc n) = negsuc n

abbrev pub as_pos : Option ℕ → Option ℤ
as_pos none = none
as_pos (some n) = some (pos n)

abbrev pub as_neg : Option ℕ → Option ℤ
as_neg none = none
as_neg (some n) = some (minus n)

-- `parse::<i64>`.
unfoldable pub parse_i64 : Text → Option ℤ
parse_i64 [] = none
parse_i64 (c ∷ cs) =
    if c == b'-'
    then as_neg (up_to (2 ^ 63) (spell_all 10 cs))
    else as_pos (up_to (2 ^ 63 - 1) (spell_all 10 (without_plus (c ∷ cs))))
