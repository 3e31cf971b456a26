-- ===== src/History/Codec.antt =====
-- crates/propsim-history/src/history.rs: histories in Jepsen's formats.
pub mod Lines
pub mod RoundTrip
pub mod Settled
pub mod Total
pub mod Safe
pub mod JsonRoundTrip
pub mod Exact
use propsim.Base.{
  ℕ, suc, ◌+◌, ◌-◌, ◌^◌, Bool, true, false, ◌||◌, ◌==◌, ltb, Option, none, some, Text, List, [],
  ◌∷◌, ◌++◌, if◌then◌else◌, codes, text_eq,
}
use propsim.Numerals.{parse_i64}
use propsim.Texts.{trim, trim_start}
use propsim.History.{
  History, OpEntry, OpKind, Clock, virtual, wall, ProcessId, Function, Time, kind_keyword,
  from_keyword,
}
use propsim.History.Values.{
  ℤ, pos, negsuc, Value, nil, int, str, keyword, list, map, Values, empty, cons, Pairs, end, pair,
}
use propsim.History.Parsed.{
  not_a_vector, not_a_map, clock_not_keyword, malformed_type, malformed_f, unknown_clock,
  unknown_type, not_an_integer, missing_integer, Parsed, ok, err, ◌>>=◌,
}
use propsim.History.Edn.{FloatText}
use propsim.History.Edn.Write.{write_edn}
use propsim.History.Edn.Read.{parse_edn}
use propsim.History.Json.Write.{write_json, comma}
use propsim.History.Json.Read.{parse_json}

-- `as i64` and `as u64`.
unfoldable pub as_i64 : ℕ → ℤ
as_i64 n = if ltb n (2 ^ 63) then pos n else negsuc (2 ^ 64 - 1 - n)

unfoldable pub as_u64 : ℤ → ℕ
as_u64 (pos n) = n
as_u64 (negsuc n) = 2 ^ 64 - 1 - n

unfoldable pub clock_kw : Clock → Text
clock_kw virtual = codes "virtual"
clock_kw wall = codes "wall"

unfoldable pub clock_from_kw : Text → Parsed Clock
clock_from_kw s =
    if text_eq s (codes "virtual")
    then ok virtual
    else if text_eq s (codes "wall")
    then ok wall
    else err (unknown_clock s)

unfoldable pub entry_to_value : OpEntry → Value
entry_to_value e = map (
    pair (keyword (codes "index")) (int (as_i64 e.index)) (
      pair (keyword (codes "time")) (int e.time.nanos) (
        pair (keyword (codes "clock")) (keyword (clock_kw e.time.clock)) (
          pair (keyword (codes "type")) (keyword (kind_keyword e.kind)) (
            pair (keyword (codes "process")) (int (as_i64 e.process)) (
              pair (keyword (codes "f")) (keyword e.f)
                (pair (keyword (codes "value")) e.value end)))))))

unfoldable pub is_key : Text → Value → Bool
is_key key (keyword name) = text_eq name key
is_key key (str name) = text_eq name key
is_key key other = false

-- The value of the first pair with the key.
unfoldable pub get : Text → Pairs → Option Value
get key end = none
get key (pair k val pairs) = if is_key key k then some val else get key pairs

abbrev pub int_or_error : Text → Option ℤ → Parsed ℤ
int_or_error field (some i) = ok i
int_or_error field none = err (not_an_integer field)

unfoldable pub require_int : Option Value → Text → Parsed ℤ
require_int (some (int i)) field = ok i
require_int (some (str s)) field = int_or_error field (parse_i64 s)
require_int other field = err (missing_integer field)

unfoldable pub clock_of : Option Value → Parsed Clock
clock_of (some (keyword k)) = clock_from_kw k
clock_of (some (str k)) = clock_from_kw k
clock_of (some other) = err clock_not_keyword
clock_of none = ok wall

abbrev pub kind_or_error : Text → Option OpKind → Parsed OpKind
kind_or_error k (some kind) = ok kind
kind_or_error k none = err (unknown_type k)

unfoldable pub kind_of : Option Value → Parsed OpKind
kind_of (some (keyword k)) = kind_or_error k (from_keyword k)
kind_of (some (str k)) = kind_or_error k (from_keyword k)
kind_of other = err malformed_type

unfoldable pub function_of : Option Value → Parsed Function
function_of (some (keyword k)) = ok k
function_of (some (str k)) = ok k
function_of other = err malformed_f

abbrev pub value_of : Option Value → Value
value_of (some v) = v
value_of none = nil

unfoldable pub entry_of : Pairs → Parsed OpEntry
entry_of pairs = require_int (get (codes "index") pairs) (codes "index") >>= λ index.
    require_int (get (codes "time") pairs) (codes "time") >>= λ nanos.
    clock_of (get (codes "clock") pairs) >>= λ clock. kind_of (get (codes "type") pairs) >>= λ kind.
    require_int (get (codes "process") pairs) (codes "process") >>= λ process.
    function_of (get (codes "f") pairs) >>= λ f. ok (record {
      index = as_u64 index;
      time = record { nanos = nanos; clock = clock };
      kind = kind;
      process = as_u64 process;
      f = f;
      value = value_of (get (codes "value") pairs);
    })

unfoldable pub value_to_entry : Value → Parsed OpEntry
value_to_entry (map pairs) = entry_of pairs
value_to_entry other = err not_a_map

-- `collect`: the first error ends it.
unfoldable pub collect_entries : Values → Parsed History
collect_entries empty = ok []
collect_entries (cons v items) =
    value_to_entry v >>= λ e. collect_entries items >>= λ es. ok (e ∷ es)

unfoldable pub starts_with : ℕ → Text → Bool
starts_with d [] = false
starts_with d (c ∷ s) = c == d

-- Whether a quote follows the first brace.
unfoldable pub looks_like_json : Text → Bool
looks_like_json [] = false
looks_like_json (c ∷ s) = if c == b'{' then starts_with b'"' (trim_start s) else looks_like_json s

-- `str::lines`: a line ends at a line feed, and a carriage return before it is dropped.
abbrev pub onto : ℕ → List Text → List Text
onto c [] = (c ∷ []) ∷ []
onto c (l ∷ ls) = (c ∷ l) ∷ ls

unfoldable pub lines : Text → List Text
lines [] = []
lines (c ∷ s) =
    if c == b'\n'
    then [] ∷ lines s
    else if c == b'\r'
    then (if starts_with b'\n' s then lines s else onto c (lines s))
    else onto c (lines s)

abbrev pub is_empty : Text → Bool
is_empty [] = true
is_empty (c ∷ s) = false

unfoldable pub entries_of : Value → Parsed History
entries_of (list items) = collect_entries items
entries_of other = err not_a_vector

module _ (F : FloatText) where
  unfoldable pub to_jepsen_edn : History → Text
  to_jepsen_edn [] = []
  to_jepsen_edn (e ∷ h) = write_edn F (entry_to_value e) ++ b'\n' ∷ to_jepsen_edn h

  unfoldable pub json_entries : History → Bool → Text
  json_entries [] first = []
  json_entries (e ∷ h) first =
      comma first ++ (write_json F (entry_to_value e) ++ json_entries h false)

  unfoldable pub to_jepsen_json : History → Text
  to_jepsen_json h = b'[' ∷ (json_entries h true ++ b']' ∷ [])

  -- Blank lines are skipped.
  unfoldable pub read_lines : List Text → Parsed History
  read_lines [] = ok []
  read_lines (line ∷ rest) = elim (is_empty (trim line)) [
    | true ↦ read_lines rest
    | false ↦
        parse_edn F line >>= λ v. value_to_entry v >>= λ e. read_lines rest >>= λ es. ok (e ∷ es)
  ]

  unfoldable pub from_jepsen : Text → Parsed History
  from_jepsen s =
      let trimmed = trim_start s in
      if starts_with b'[' trimmed || starts_with b'(' trimmed
      then ((if looks_like_json trimmed then parse_json F trimmed else parse_edn F trimmed) >>= λ v.
          entries_of v)
      else read_lines (lines s)
