-- ===== src/Tests/Edn.antt =====
-- EDN, JSON and the text of seeds run on small inputs, and the theorems on them applied.
use propsim.Base.{
  ℕ, ◌^◌, ◌≡◌, ◌≢◌, refl, ap, ◌∙◌, false, Text, [], ◌∷◌, ◌++◌, ◌==◌, All, codes, text_eq,
  if◌then◌else◌, arith, map, length,
}
use propsim.Float64.{is_finite}
use propsim.Numerals.{
  digit, show_loop, show_radix, show_int, digit_value, spell, spell_all, parse_i64,
}
use propsim.Numerals.Correct.{IsDigit, show_radix-IsDigit, spell_all-show}
use propsim.Core.Seed.{parsed, display, from_str}
use propsim.Core.Seed.Correct.{from_str-display}
use propsim.History
use propsim.History.{OpEntry, virtual, History}
use propsim.History.Values.{
  pos, negsuc, Value, nil, int, float, str, keyword, list, empty, cons, end, pair,
}
use propsim.History.Parsed.{ok, err, panicked, out_of_fuel, trailing_input, json_invalid_literal}
use propsim.History.Edn.{
  FloatText, is_space, is_delim, contains, fmt_float, escaped, push_escaped, write_quoted,
}
use propsim.History.Edn.Write.{write_edn}
use propsim.History.Edn.Read.{
  parse_edn, parse_value, skips, skip_from, skip_ws, take_token, parse_keyword, trim_suffix,
  atom_value, parse_atom, unescape, string_from, parse_string, lead, ahead, utf8_width, utf8_len,
  finish,
}
use propsim.History.Edn.Numbers.{IsFloatText, digits}
use propsim.History.Edn.Safe.{parse_edn-no_panic}
use propsim.History.Edn.Writable.{IsWritable, readable}
use propsim.History.Edn.RoundTrip.{parse_edn-write_edn}
use propsim.History.Json.Write.{write_json}
use propsim.History.Json.Read.{parse_json}
use propsim.History.Json.Values.{IsJsonWritable, through_json}
use propsim.History.Json.RoundTrip.{parse_json-write_json}
use propsim.History.Json.NotFinite.{write_json-not_finite}
use propsim.History.Codec.{to_jepsen_edn, to_jepsen_json, from_jepsen}
use propsim.History.Json.Tame.{IsGuarded, guarded-IsGuarded}
use propsim.History.Codec.Safe.{from_jepsen-no_panic}
use propsim.History.Codec.RoundTrip.{IsSaveable, from_jepsen-to_jepsen_edn, readable_entry}
use propsim.History.Codec.JsonRoundTrip.{
  IsJsonSaveable, from_jepsen-to_jepsen_json, entry_through_json,
}
use propsim.History.Codec.Exact.{IsPortable, IsPortableEntry, from_jepsen-exact}
use propsim.History.Codec.Total.{from_jepsen-terminates}

unfoldable program : Unit {0}
unfolding digit show_loop show_radix show_int digit_value spell spell_all parse_i64 escaped
    push_escaped write_quoted write_edn skips skip_from skip_ws is_space is_delim take_token text_eq
    trim_suffix atom_value parse_atom parse_keyword unescape string_from parse_string lead ahead
    parse_value utf8_width utf8_len finish parse_edn contains fmt_float is_finite
program = tt

-- Floats written as the number of their bits.
unfoldable before_point : Text → Text
before_point [] = []
before_point (c ∷ s) = if c == b'.' then [] else c ∷ before_point s

unfoldable decimal : FloatText
unfolding spell_all show_radix before_point
decimal = record { display = show_radix 10; parse = λ s. spell_all 10 (before_point s) }

before_point-append : (s t : Text) → All (IsDigit 10) s → before_point (s ++ b'.' ∷ t) ≡ s
unfolding before_point digit_value
before_point-append [] t h = refl
before_point-append (c ∷ s) t h =
    let no : (c == b'.') ≡ false = ground (arith, h.0) in rw (no, before_point-append s t h.1) refl

before_point-digits : (s : Text) → All (IsDigit 10) s → before_point s ≡ s
unfolding before_point digit_value
before_point-digits [] h = refl
before_point-digits (c ∷ s) h =
    let no : (c == b'.') ≡ false = ground (arith, h.0) in rw (no, before_point-digits s h.1) refl

decimal-IsFloatText : IsFloatText decimal
unfolding decimal
decimal-IsFloatText = record {
  display-IsPlain = λ x h. digits x;
  parse-display = λ x h.
      ap (spell_all 10) (
        before_point-digits (show_radix 10 x) (show_radix-IsDigit 10 x (omega arith) (omega arith)))
      ∙ spell_all-show 10 x (omega arith) (omega arith);
  parse-point = λ x h k.
      ap (spell_all 10) (
        before_point-append (show_radix 10 x) (b'0' ∷ [])
          (show_radix-IsDigit 10 x (omega arith) (omega arith)))
      ∙ spell_all-show 10 x (omega arith) (omega arith);
  parse-empty = refl;
}

-- {:a [-5 "x\"y\n"], nil true} with a float that is not a number.
abbrev not_a_number : ℕ
not_a_number = 0x7FF8_0000_0000_0000

abbrev sample : Value
sample = Value.map (
    pair (keyword (codes "a")) (list (cons (int (negsuc 4)) (cons (str (codes "x\"y\n")) empty)))
      (pair nil (float not_a_number) end))

sample_text : write_edn decimal sample ≡ codes "{:a [-5 \"x\\\"y\\n\"], nil nil}"
unfolding program
sample_text = refl

trailing : parse_edn decimal (codes "[1 ; c\n 2] x") ≡ err (trailing_input 11)
unfolding program
trailing = refl

panics : parse_edn decimal (b'"' ∷ b'\\' ∷ 0xE9 ∷ b'"' ∷ []) ≡ panicked
unfolding program
panics = refl

abbrev c0ffee : ℕ
c0ffee = 0xC0FFEE

from_str-display_example :
    (from_str (display c0ffee) ≡ parsed c0ffee) × (length (display c0ffee) ≡ 18)
from_str-display_example = from_str-display c0ffee (omega arith)

sample-IsWritable : IsWritable sample
unfolding IsWritable is_delim is_space
sample-IsWritable = ((refl, tt), (omega arith, (tt, tt)), (tt, tt, tt))

parse_edn-write_edn_example : parse_edn decimal (write_edn decimal sample) ≡ ok (readable sample)
parse_edn-write_edn_example =
    parse_edn-write_edn decimal decimal-IsFloatText sample sample-IsWritable

parse_edn-no_panic_example : parse_edn decimal (codes "[\"a\\n\" :b") ≢ panicked
parse_edn-no_panic_example = parse_edn-no_panic decimal (codes "[\"a\\n\" :b") (
  λ _. refl,
  (
    λ _. refl,
    (λ _. refl, (λ _. refl, (λ _. refl, (λ _. refl, (λ _. refl, (λ _. refl, (tt, tt))))))),
  ),
)

-- A JSON text with escapes, of the letter A among them.
abbrev with_escapes : Text
with_escapes = codes "[\"a\\n\\u0041b\"]"

with_escapes-IsGuarded : IsGuarded with_escapes
with_escapes-IsGuarded = guarded-IsGuarded with_escapes refl

from_jepsen-no_panic_example : from_jepsen decimal with_escapes ≢ panicked
from_jepsen-no_panic_example = from_jepsen-no_panic decimal with_escapes with_escapes-IsGuarded

-- {1 ":b", "c" 2}.
abbrev json_sample : Value
json_sample =
    Value.map (pair (int (pos 1)) (str (codes ":b")) (pair (str (codes "c")) (float 2) end))

json_sample-IsJsonWritable : IsJsonWritable json_sample
unfolding IsJsonWritable is_finite
json_sample-IsJsonWritable = (tt, (refl, tt))

parse_json-write_json_example :
    parse_json decimal (write_json decimal json_sample) ≡ ok (through_json decimal json_sample)
parse_json-write_json_example =
    parse_json-write_json decimal decimal-IsFloatText json_sample json_sample-IsJsonWritable

not_finite : is_finite not_a_number ≡ false
unfolding is_finite
not_finite = refl

write_json-not_finite_example :
    (parse_json decimal (write_json decimal (float not_a_number)) ≡ err json_invalid_literal)
    × (parse_edn decimal (write_edn decimal (float not_a_number)) ≡ ok nil)
write_json-not_finite_example = write_json-not_finite decimal not_a_number not_finite

abbrev entry : OpEntry
entry = record {
  index = 0;
  time = record { nanos = negsuc 4; clock = virtual };
  kind = History.invoke;
  process = 2 ^ 63;
  f = codes "write";
  value = list (cons (int (pos 1)) (cons (str (codes "a\r\n")) empty));
}

abbrev saved : History
saved = entry ∷ entry ∷ []

entry-IsSaveable : IsSaveable entry
unfolding IsWritable is_delim is_space
entry-IsSaveable = (
  omega arith,
  omega arith,
  omega arith,
  (refl, (refl, (refl, (refl, (refl, tt))))),
  (omega arith, (tt, tt)),
)

entry-IsJsonSaveable : IsJsonSaveable entry
unfolding IsJsonWritable
entry-IsJsonSaveable = (omega arith, omega arith, omega arith, (omega arith, (tt, tt)))

from_jepsen-to_jepsen_edn_example :
    from_jepsen decimal (to_jepsen_edn decimal saved) ≡ ok (map readable_entry saved)
from_jepsen-to_jepsen_edn_example =
    from_jepsen-to_jepsen_edn decimal decimal-IsFloatText saved
      (entry-IsSaveable, (entry-IsSaveable, tt))

from_jepsen-to_jepsen_json_example :
    from_jepsen decimal (to_jepsen_json decimal saved) ≡ ok (map (entry_through_json decimal) saved)
from_jepsen-to_jepsen_json_example =
    from_jepsen-to_jepsen_json decimal decimal-IsFloatText saved
      (entry-IsJsonSaveable, (entry-IsJsonSaveable, tt))

-- With a keyword for a key.
abbrev portable : OpEntry
portable = record entry { value = Value.map (pair (keyword (codes "k")) (str (codes "a\"b")) end) }

portable-IsPortableEntry : IsPortableEntry portable
unfolding IsPortable IsWritable is_delim is_space
portable-IsPortableEntry = (
  omega arith,
  omega arith,
  omega arith,
  (refl, (refl, (refl, (refl, (refl, tt))))),
  ((refl, tt), refl, tt),
)

from_jepsen-exact_example :
    (from_jepsen decimal (to_jepsen_edn decimal (portable ∷ [])) ≡ ok (portable ∷ []))
    × (from_jepsen decimal (to_jepsen_json decimal (portable ∷ [])) ≡ ok (portable ∷ []))
from_jepsen-exact_example =
    from_jepsen-exact decimal decimal-IsFloatText (portable ∷ []) (portable-IsPortableEntry, tt)

from_jepsen-terminates_example : from_jepsen decimal (codes "[{\"index\": 1,,}") ≢ out_of_fuel
from_jepsen-terminates_example =
    from_jepsen-terminates decimal (IsFloatText.parse-empty decimal-IsFloatText)
      (codes "[{\"index\": 1,,}")
