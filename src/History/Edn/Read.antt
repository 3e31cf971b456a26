-- ===== src/History/Edn/Read.antt =====
-- The reader of EDN. The source's position is the text that is left to read.
use propsim.Base.{
  ℕ, zero, suc, ◌+◌, ◌-◌, ◌*◌, Bool, true, false, not, ◌||◌, ◌==◌, ltb, leb, Option, none, some,
  Text, [], ◌∷◌, if◌then◌else◌, codes, text_eq, length,
}
use propsim.Numerals.{parse_i64}
use propsim.History.Values.{
  ℤ, Value, nil, bool, int, float, str, keyword, list, map, Values, empty, cons, Pairs, end, pair,
}
use propsim.History.Parsed.{
  trailing_input, unexpected_end, unterminated_map, unterminated_list, unterminated_string,
  trailing_escape, empty_keyword, unrecognized_token, Parsed, ok, err, panicked, out_of_fuel, ◌>>=◌,
}
use propsim.History.Edn.{FloatText, is_space, is_delim}

-- Whether `skip_ws` passes over a character, within a comment or not, and whether it is in a
-- comment after it.

unfoldable pub skips : Bool → ℕ → Bool
skips in_comment c = in_comment || is_space c || c == b',' || c == b';'

abbrev pub comment_after : Bool → ℕ → Bool
comment_after in_comment c = if in_comment then not (c == b'\n') else c == b';'

unfoldable pub skip_from : Bool → Text → Text
skip_from in_comment [] = []
skip_from in_comment (c ∷ s) = elim (skips in_comment c) [
  | true ↦ skip_from (comment_after in_comment c) s
  | false ↦ c ∷ s
]

unfoldable pub skip_ws : Text → Text
skip_ws s = skip_from false s

-- A run of characters that are no delimiters, and what follows it.
unfoldable pub take_token : Text → Text × Text
take_token [] = ([], [])
take_token (c ∷ s) = elim (is_delim c) [
  | true ↦ ([], c ∷ s)
  | false ↦ let (tok, rest) = take_token s in (c ∷ tok, rest)
]

abbrev pub keyword_or_error : Text → Text → Parsed (Value × Text)
keyword_or_error [] rest = err empty_keyword
keyword_or_error (c ∷ cs) rest = ok (keyword (c ∷ cs), rest)

unfoldable pub parse_keyword : Text → Parsed (Value × Text)
parse_keyword s = let (k, rest) = take_token s in keyword_or_error k rest

-- `trim_end_matches(['M', 'N'])`.
unfoldable pub trim_suffix : Text → Text
trim_suffix [] = []
trim_suffix (c ∷ cs) = elim (trim_suffix cs) [
  | [] ↦ if c == b'M' || c == b'N' then [] else c ∷ []
  | d ∷ ds ↦ c ∷ d ∷ ds
]

module _ (F : FloatText) where
  abbrev pub float_or_error : Text → Option ℕ → Parsed Value
  float_or_error tok (some f) = ok (float f)
  float_or_error tok none = err (unrecognized_token tok)

  abbrev pub int_or_float : Text → Option ℤ → Parsed Value
  int_or_float tok (some i) = ok (int i)
  int_or_float tok none = float_or_error tok (FloatText.parse F (trim_suffix tok))

  unfoldable pub atom_value : Text → Parsed Value
  atom_value tok =
      if text_eq tok (codes "nil")
      then ok nil
      else if text_eq tok (codes "true")
      then ok (bool true)
      else if text_eq tok (codes "false")
      then ok (bool false)
      else int_or_float tok (parse_i64 tok)

  unfoldable pub parse_atom : Text → Parsed (Value × Text)
  parse_atom s = let (tok, rest) = take_token s in atom_value tok >>= λ v. ok (v, rest)

unfoldable pub unescape : ℕ → ℕ
unescape c =
    if c == b'n' then b'\n' else if c == b'r' then b'\r' else if c == b't' then b'\t' else c

-- From behind the opening quote, or behind a backslash. After a backslash one byte is pushed and
-- passed over: in the middle of a longer character the source slices its text there, and panics.
unfoldable pub string_from : Bool → Text → Parsed (Text × Text)
string_from false [] = err unterminated_string
string_from true [] = err trailing_escape
string_from true (c ∷ s) = elim (leb 128 c) [
  | true ↦ panicked
  | false ↦ string_from false s >>= λ (out, rest). ok (unescape c ∷ out, rest)
]
string_from false (c ∷ s) = elim (c == b'"') [
  | true ↦ ok ([], s)
  | false ↦ elim (c == b'\\') [
    | true ↦ string_from true s
    | false ↦ string_from false s >>= λ (out, rest). ok (c ∷ out, rest)
  ]
]

unfoldable pub parse_string : Text → Parsed (Value × Text)
parse_string s = string_from false s >>= λ (out, rest). ok (str out, rest)

-- What the next character opens, with the text behind it, or with the whole text for an atom.
pub data Lead : Type 0 where
  nothing : Lead
  opens_map opens_string opens_keyword opens_atom : Text → Lead
  opens_seq : ℕ → Text → Lead

unfoldable pub lead : Text → Lead
lead [] = nothing
lead (c ∷ s) =
    if c == b'{'
    then opens_map s
    else if c == b'['
    then opens_seq b']' s
    else if c == b'('
    then opens_seq b')' s
    else if c == b'"'
    then opens_string s
    else if c == b':'
    then opens_keyword s
    else opens_atom (c ∷ s)

-- Whether a collection ends at the next character.
pub data Ahead : Type 0 where
  at_end : Ahead
  closed more : Text → Ahead

unfoldable pub ahead : ℕ → Text → Ahead
ahead close [] = at_end
ahead close (c ∷ s) = if c == close then closed s else more (c ∷ s)

-- `parse_value`, `parse_map` and `parse_seq` behind the look at the next character, given the
-- readers of what is inside.
module _ (F : FloatText) (read_pairs : Text → Parsed (Pairs × Text))
    (read_items : ℕ → Text → Parsed (Values × Text)) where
  abbrev pub read_lead : Lead → Parsed (Value × Text)
  read_lead nothing = err unexpected_end
  read_lead (opens_map t) = read_pairs t >>= λ (pairs, rest). ok (map pairs, rest)
  read_lead (opens_seq close t) = read_items close t >>= λ (items, rest). ok (list items, rest)
  read_lead (opens_string t) = parse_string t
  read_lead (opens_keyword t) = parse_keyword t
  read_lead (opens_atom t) = parse_atom F t

module _ (read_value : Text → Parsed (Value × Text)) where
  abbrev pub next_pair : (Text → Parsed (Pairs × Text)) → Ahead → Parsed (Pairs × Text)
  next_pair read_pairs at_end = err unterminated_map
  next_pair read_pairs (closed rest) = ok (end, rest)
  next_pair read_pairs (more t) = read_value t >>= λ (k, t').
      read_value t' >>= λ (v, t''). read_pairs t'' >>= λ (pairs, rest). ok (pair k v pairs, rest)

  abbrev pub next_item : (Text → Parsed (Values × Text)) → Ahead → Parsed (Values × Text)
  next_item read_items at_end = err unterminated_list
  next_item read_items (closed rest) = ok (empty, rest)
  next_item read_items (more t) =
      read_value t >>= λ (v, t'). read_items t' >>= λ (items, rest). ok (cons v items, rest)

module _ (F : FloatText) where
  unfoldable mutual
    pub parse_value : ℕ → Text → Parsed (Value × Text)
    parse_value zero s = out_of_fuel
    parse_value (suc fuel) s =
        read_lead F (λ t. parse_pairs fuel t) (λ close t. parse_items fuel close t)
          (lead (skip_ws s))

    pub parse_pairs : ℕ → Text → Parsed (Pairs × Text)
    parse_pairs zero s = out_of_fuel
    parse_pairs (suc fuel) s =
        next_pair (λ t. parse_value fuel t) (λ t. parse_pairs fuel t) (ahead b'}' (skip_ws s))

    pub parse_items : ℕ → ℕ → Text → Parsed (Values × Text)
    parse_items zero close s = out_of_fuel
    parse_items (suc fuel) close s =
        next_item (λ t. parse_value fuel t) (λ t. parse_items fuel close t)
          (ahead close (skip_ws s))

-- The length in bytes, of a character and of a text.
unfoldable pub utf8_width : ℕ → ℕ
utf8_width c = if ltb c 0x80 then 1 else if ltb c 0x800 then 2 else if ltb c 0x10000 then 3 else 4

unfoldable pub utf8_len : Text → ℕ
utf8_len [] = 0
utf8_len (c ∷ s) = utf8_width c + utf8_len s

-- The error gives the position as a count of bytes.
unfoldable pub finish : Text → Value → Text → Parsed Value
finish s v [] = ok v
finish s v (c ∷ rest) = err (trailing_input (utf8_len s - utf8_len (c ∷ rest)))

unfoldable pub parse_edn : FloatText → Text → Parsed Value
parse_edn F s =
    parse_value F (2 * length s + 1) (skip_ws s) >>= λ (v, rest). finish s v (skip_ws rest)
