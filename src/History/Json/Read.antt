-- ===== src/History/Json/Read.antt =====
-- The reader of JSON. The source's position is the text that is left to read.
use propsim.Base.{
  ℕ, zero, suc, ◌+◌, ◌-◌, ◌*◌, Bool, true, false, ◌&&◌, ◌||◌, ◌==◌, ltb, leb, Option, none, some,
  Text, [], ◌∷◌, ◌++◌, if◌then◌else◌, codes, length,
}
use propsim.Numerals.{parse_i64, spell_all, without_plus}
use propsim.Texts.{strip_prefix}
use propsim.History.Values.{
  ℤ, Value, nil, bool, int, float, list, map, Values, empty, cons, Pairs, end, pair,
}
use propsim.History.Parsed.{
  ParseError, json_trailing_input, json_unexpected_end, json_missing_colon, json_malformed_object,
  json_unterminated_array, json_unterminated_string, json_trailing_escape, json_truncated_escape,
  json_invalid_escape, json_invalid_code_point, json_invalid_literal, json_invalid_number, Parsed,
  ok, err, panicked, out_of_fuel, ◌>>=◌,
}
use propsim.History.Edn.{FloatText, is_space}
use propsim.History.Edn.Read.{unescape, utf8_width, utf8_len}
use propsim.History.Json.{str_to_value}

unfoldable pub skip_ws : Text → Text
skip_ws [] = []
skip_ws (c ∷ s) = if is_space c then skip_ws s else c ∷ s

-- Within a string: at a character, behind a backslash, or within the four bytes of a `\u` escape,
-- of which so many are read, and spell such a text.
pub data StringMode : Type 0 where
  plain backslash : StringMode
  unicode : ℕ → Text → StringMode

-- What a character does: it ends the string, a character is pushed, the rest is read in another
-- mode, or the reader refuses the text or panics.
pub data StringStep : Type 0 where
  close crash : StringStep
  push : ℕ → StringStep
  enter : StringMode → StringStep
  refuse : ParseError → StringStep

-- `char::from_u32`: no surrogate is a char.
abbrev pub push_char : Option ℕ → StringStep
push_char none = refuse json_invalid_escape
push_char (some code) =
    if leb 0xD800 code && leb code 0xDFFF then refuse json_invalid_code_point else push code

-- `u32::from_str_radix`, which cannot overflow on four bytes.
unfoldable pub push_hex : Text → StringStep
push_hex hex = push_char (spell_all 16 (without_plus hex))

-- After a backslash one byte is passed over, and the four bytes of an escape are cut out of the
-- text: in the middle of a longer character either panics.
unfoldable pub string_step : StringMode → ℕ → StringStep
string_step plain c = if c == b'"' then close else if c == b'\\' then enter backslash else push c
string_step backslash c =
    if c == b'u' then enter (unicode 0 []) else if leb 128 c then crash else push (unescape c)
string_step (unicode n hex) c =
    let n' = n + utf8_width c in
    let hex' = hex ++ c ∷ [] in
    if ltb n' 4 then enter (unicode n' hex') else if n' == 4 then push_hex hex' else crash

abbrev pub string_end : StringMode → Parsed (Text × Text)
string_end plain = err json_unterminated_string
string_end backslash = err json_trailing_escape
string_end (unicode n hex) = err json_truncated_escape

abbrev pub continue : (StringMode → Parsed (Text × Text)) → Text → StringStep → Parsed (Text × Text)
continue read s close = ok ([], s)
continue read s crash = panicked
continue read s (push d) = read plain >>= λ (out, rest). ok (d ∷ out, rest)
continue read s (enter mode) = read mode
continue read s (refuse e) = err e

-- From behind the opening quote.
unfoldable pub string_from : Text → StringMode → Parsed (Text × Text)
string_from [] mode = string_end mode
string_from (c ∷ s) mode = continue (λ m. string_from s m) s (string_step mode c)

unfoldable pub parse_string : Text → Parsed (Text × Text)
parse_string s = string_from s plain

-- A prefix of the text, whatever follows it.
abbrev pub literal : Option Text → Value → Parsed (Value × Text) → Parsed (Value × Text)
literal (some rest) v other = ok (v, rest)
literal none v other = other

unfoldable pub parse_keyword_literal : Text → Parsed (Value × Text)
parse_keyword_literal s = literal (strip_prefix (codes "true") s) (bool true) (
    literal (strip_prefix (codes "false") s) (bool false)
      (literal (strip_prefix (codes "null") s) nil (err json_invalid_literal)))

unfoldable pub is_number_char : ℕ → Bool
is_number_char c =
    leb b'0' c && leb c b'9' || c == b'-' || c == b'+' || c == b'.' || c == b'e' || c == b'E'

unfoldable pub take_number : Text → Text × Text
take_number [] = ([], [])
take_number (c ∷ s) = elim (is_number_char c) [
  | true ↦ let (tok, rest) = take_number s in (c ∷ tok, rest)
  | false ↦ ([], c ∷ s)
]

module _ (F : FloatText) where
  abbrev pub float_or_error : Text → Option ℕ → Parsed Value
  float_or_error tok (some f) = ok (float f)
  float_or_error tok none = err (json_invalid_number tok)

  abbrev pub int_or_float : Text → Option ℤ → Parsed Value
  int_or_float tok (some i) = ok (int i)
  int_or_float tok none = float_or_error tok (FloatText.parse F tok)

  unfoldable pub parse_number : Text → Parsed (Value × Text)
  parse_number s =
      let (tok, rest) = take_number s in int_or_float tok (parse_i64 tok) >>= λ v. ok (v, rest)

-- What the next character opens, with the text behind it, or with the whole text for a literal or
-- a number.
pub data Lead : Type 0 where
  nothing : Lead
  opens_object opens_array opens_string opens_literal opens_number : Text → Lead

unfoldable pub lead : Text → Lead
lead [] = nothing
lead (c ∷ s) =
    if c == b'{'
    then opens_object s
    else if c == b'['
    then opens_array s
    else if c == b'"'
    then opens_string s
    else if c == b't' || c == b'f' || c == b'n'
    then opens_literal (c ∷ s)
    else opens_number (c ∷ s)

-- What the next character means within a collection.
pub data Ahead : Type 0 where
  at_end : Ahead
  closed passed quoted other : Text → Ahead

unfoldable pub ahead : ℕ → Text → Ahead
ahead bracket [] = at_end
ahead bracket (c ∷ s) =
    if c == bracket
    then closed s
    else if c == b','
    then passed s
    else if c == b'"'
    then quoted (c ∷ s)
    else other (c ∷ s)

-- The text behind the colon.
unfoldable pub after_colon : Text → Parsed Text
after_colon [] = err json_missing_colon
after_colon (c ∷ s) = if c == b':' then ok s else err json_missing_colon

-- The readers behind the look at the next character, given the readers of what is inside.
module _ (F : FloatText) (read_pairs : Text → Parsed (Pairs × Text))
    (read_items : Text → Parsed (Values × Text)) where
  abbrev pub read_lead : Lead → Parsed (Value × Text)
  read_lead nothing = err json_unexpected_end
  read_lead (opens_object t) = read_pairs t >>= λ (pairs, rest). ok (map pairs, rest)
  read_lead (opens_array t) = read_items t >>= λ (items, rest). ok (list items, rest)
  read_lead (opens_string t) = parse_string t >>= λ (s, rest). ok (str_to_value s, rest)
  read_lead (opens_literal t) = parse_keyword_literal t
  read_lead (opens_number t) = parse_number F t

module _ (read_value : Text → Parsed (Value × Text)) where
  abbrev pub read_pair : (Text → Parsed (Pairs × Text)) → Text → Parsed (Pairs × Text)
  read_pair read_pairs t = parse_string t >>= λ (key, t'). after_colon (skip_ws t') >>= λ t''.
      read_value t'' >>= λ (v, t3).
      read_pairs t3 >>= λ (pairs, rest). ok (pair (str_to_value key) v pairs, rest)

  abbrev pub next_pair : (Text → Parsed (Pairs × Text)) → Ahead → Parsed (Pairs × Text)
  next_pair read_pairs at_end = err json_malformed_object
  next_pair read_pairs (closed rest) = ok (end, rest)
  next_pair read_pairs (passed t) = read_pairs t
  next_pair read_pairs (quoted []) = err json_malformed_object
  next_pair read_pairs (quoted (quote ∷ t)) = read_pair read_pairs t
  next_pair read_pairs (other t) = err json_malformed_object

  abbrev pub read_item : (Text → Parsed (Values × Text)) → Text → Parsed (Values × Text)
  read_item read_items t =
      read_value t >>= λ (v, t'). read_items t' >>= λ (items, rest). ok (cons v items, rest)

  abbrev pub next_item : (Text → Parsed (Values × Text)) → Ahead → Parsed (Values × Text)
  next_item read_items at_end = err json_unterminated_array
  next_item read_items (closed rest) = ok (empty, rest)
  next_item read_items (passed t) = read_items t
  next_item read_items (quoted t) = read_item read_items t
  next_item read_items (other t) = read_item read_items t

module _ (F : FloatText) where
  unfoldable mutual
    pub parse_value : ℕ → Text → Parsed (Value × Text)
    parse_value zero s = out_of_fuel
    parse_value (suc fuel) s =
        read_lead F (λ t. parse_object fuel t) (λ t. parse_array fuel t) (lead (skip_ws s))

    pub parse_object : ℕ → Text → Parsed (Pairs × Text)
    parse_object zero s = out_of_fuel
    parse_object (suc fuel) s =
        next_pair (λ t. parse_value fuel t) (λ t. parse_object fuel t) (ahead b'}' (skip_ws s))

    pub parse_array : ℕ → Text → Parsed (Values × Text)
    parse_array zero s = out_of_fuel
    parse_array (suc fuel) s =
        next_item (λ t. parse_value fuel t) (λ t. parse_array fuel t) (ahead b']' (skip_ws s))

-- The error gives the position as a count of bytes.
unfoldable pub finish : Text → Value → Text → Parsed Value
finish s v [] = ok v
finish s v (c ∷ rest) = err (json_trailing_input (utf8_len s - utf8_len (c ∷ rest)))

unfoldable pub parse_json : FloatText → Text → Parsed Value
parse_json F s =
    parse_value F (2 * length s + 1) (skip_ws s) >>= λ (v, rest). finish s v (skip_ws rest)
