-- ===== src/History/Json.antt =====
-- crates/propsim-history/src/edn.rs: JSON. A text is a list of code points.
pub mod Write
pub mod Read
mod Lengths
mod Inside
pub mod Total
pub mod Tame
pub mod Safe
pub mod Strings
pub mod Numbers
pub mod Values
pub mod RoundTrip
pub mod NotFinite
use propsim.Base.{ℕ, Bool, ◌==◌, Text, [], ◌∷◌, if◌then◌else◌}
use propsim.History.Values.{Value, str, keyword}

-- A keyword is a string with a colon in front.
unfoldable pub str_to_value : Text → Value
str_to_value [] = str []
str_to_value (c ∷ cs) = if c == b':' then keyword cs else str (c ∷ cs)
