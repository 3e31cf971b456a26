-- ===== src/Core/Seed.antt =====
-- crates/propsim-core/src/seed.rs: the text of a seed.
pub mod Correct
use propsim.Base.{ℕ, ◌∷◌, Option, none, some, Text, ◌++◌, codes}
use propsim.Core.Plan.{Seed}
use propsim.Numerals.{padded_hex, parse_u64}
use propsim.Texts.{trim, strip_prefix}

-- `Result<Seed, SeedParseError>`: the error keeps the trimmed text.
pub data SeedResult : Type 0 where
  parsed : Seed → SeedResult
  seed_parse_error : Text → SeedResult

unfoldable pub display : Seed → Text
display seed = codes "0x" ++ padded_hex seed

-- What follows the prefix, if there is one.
abbrev pub first_of : Option Text → Option Text → Option Text
first_of (some s) o = some s
first_of none o = o

abbrev pub parse_number : Text → Option Text → Option ℕ
parse_number s (some hex) = parse_u64 16 hex
parse_number s none = parse_u64 10 s

abbrev pub seed_or_error : Text → Option ℕ → SeedResult
seed_or_error s (some n) = parsed n
seed_or_error s none = seed_parse_error s

unfoldable pub from_str : Text → SeedResult
from_str text =
    let s = trim text in
    let hex = first_of (strip_prefix (codes "0x") s) (strip_prefix (codes "0X") s) in
    seed_or_error s (parse_number s hex)
