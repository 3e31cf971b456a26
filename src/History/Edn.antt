-- ===== src/History/Edn.antt =====
-- crates/propsim-history/src/edn.rs: EDN. A text is a list of code points, since every byte that
-- the source's reader tests for is a whole character.
pub mod Write
pub mod Read
mod Lengths
pub mod Total
pub mod Tame
pub mod Safe
pub mod Strings
pub mod Tokens
pub mod Numbers
pub mod Writable
pub mod RoundTrip
use propsim.Base.{
  ℕ, Bool, true, false, not, ◌&&◌, ◌||◌, ◌==◌, ltb, leb, Option, none, some, Text, List, [], ◌∷◌,
  ◌++◌, if◌then◌else◌, codes,
}
use propsim.Float64.{is_finite}

-- Rust's f64 in decimal: `format!("{f}")` and `parse::<f64>`.
pub record FloatText : Type 0 where
  pub display : ℕ → Text
  pub parse : Text → Option ℕ

-- `u8::is_ascii_whitespace`.
unfoldable pub is_space : ℕ → Bool
is_space c = c == b' ' || c == b'\t' || c == b'\n' || c == 12 || c == b'\r'

unfoldable pub is_delim : ℕ → Bool
is_delim c =
    is_space c
    || c == b','
    || c == b'{'
    || c == b'}'
    || c == b'['
    || c == b']'
    || c == b'('
    || c == b')'
    || c == b'"'
    || c == b';'

-- `contains` of a character.
unfoldable pub contains : ℕ → Text → Bool
contains d [] = false
contains d (c ∷ cs) = c == d || contains d cs

unfoldable pub fmt_float : FloatText → ℕ → Text
fmt_float F f =
    let s = FloatText.display F f in
    if is_finite f
    then (if contains b'.' s || contains b'e' s || contains b'E' s then s else s ++ codes ".0")
    else codes "nil"

unfoldable pub escaped : ℕ → Text
escaped c =
    if c == b'"'
    then codes "\\\""
    else if c == b'\\'
    then codes "\\\\"
    else if c == b'\n'
    then codes "\\n"
    else if c == b'\r'
    then codes "\\r"
    else if c == b'\t'
    then codes "\\t"
    else c ∷ []

unfoldable pub push_escaped : Text → Text
push_escaped [] = []
push_escaped (c ∷ cs) = escaped c ++ push_escaped cs

unfoldable pub write_quoted : Text → Text
write_quoted s = b'"' ∷ push_escaped s ++ b'"' ∷ []
