-- ===== src/History/Json/Values.antt =====
-- The values that the writer of JSON writes so that they can be read, and what their parts are
-- read back as.
use mathlib.Core.List.{append_assoc}
use propsim.Base.{
  subst, none, ℕ, suc, ◌<◌, ◌≡◌, refl, arith, Bool, true, false, ◌==◌, ◌&&◌, not, Text, [], ◌∷◌,
  ◌++◌, All, codes, length, if◌then◌else◌,
}
use propsim.Float64.{is_finite}
use propsim.Numerals.{show_int}
use propsim.Numerals.Correct.{IsI64}
use propsim.Texts.{strip_prefix}
use propsim.History.Values.{
  Value, nil, bool, int, float, str, keyword, list, map, Values, empty, cons, Pairs, end, pair, ℤ,
}
use propsim.History.Parsed.{ok}
use propsim.History.Edn.{FloatText, is_space, fmt_float, write_quoted, push_escaped, escaped}
use propsim.History.Edn.Numbers.{
  IsFloatOf, IsFloatText, IsPlain, show_int-IsPlain, show_int-cons, fmt_float-IsFloatOf,
}
use propsim.History.Json.{str_to_value}
use propsim.History.Json.Write.{write_json, write_items, write_pairs, write_keyword}
use propsim.History.Json.Read.{is_number_char, skip_ws, lead, parse_keyword_literal, parse_value}
use propsim.History.Json.Numbers.{EndsNumber}
use propsim.History.Json.Strings.{key_text, parse_string-push_escaped}

-- Integers are in range and floats are finite.

unfoldable mutual
  pub IsJsonWritable : Value → Type 0
  IsJsonWritable nil = Unit
  IsJsonWritable (bool b) = Unit
  IsJsonWritable (int i) = IsI64 i
  IsJsonWritable (float f) = is_finite f ≡ true
  IsJsonWritable (str s) = Unit
  IsJsonWritable (keyword k) = Unit
  IsJsonWritable (list items) = AreJsonWritable items
  IsJsonWritable (map pairs) = ArePairsJsonWritable pairs

  pub AreJsonWritable : Values → Type 0
  AreJsonWritable empty = Unit
  AreJsonWritable (cons v items) = IsJsonWritable v × AreJsonWritable items

  pub ArePairsJsonWritable : Pairs → Type 0
  ArePairsJsonWritable end = Unit
  ArePairsJsonWritable (pair k v pairs) = IsJsonWritable v × ArePairsJsonWritable pairs

module _ (F : FloatText) where
  -- What JSON keeps of a value: a string that begins with a colon is a keyword, and a key is a
  -- string.
  unfoldable mutual
    pub through_json : Value → Value
    through_json nil = nil
    through_json (bool b) = bool b
    through_json (int i) = int i
    through_json (float f) = float f
    through_json (str s) = str_to_value s
    through_json (keyword k) = keyword k
    through_json (list items) = list (items_through_json items)
    through_json (map pairs) = map (pairs_through_json pairs)

    pub items_through_json : Values → Values
    items_through_json empty = empty
    items_through_json (cons v items) = cons (through_json v) (items_through_json items)

    pub pairs_through_json : Pairs → Pairs
    pairs_through_json end = end
    pairs_through_json (pair k v pairs) =
        pair (str_to_value (key_text F k)) (through_json v) (pairs_through_json pairs)

-- The first character of a value's text.
abbrev pub starts : ℕ → Bool
starts c = not (is_space c) && not (c == b',') && not (c == b']')

abbrev pub StartsItem : Text → Type 0
StartsItem [] = ⊥
StartsItem (c ∷ cs) = starts c ≡ true

pub StartsItem-length : (s : Text) → StartsItem s → 0 < length s
StartsItem-length [] h = absurd h
StartsItem-length (c ∷ cs) h = omega arith

pub skip_ws-starts : (s : Text) → StartsItem s → skip_ws s ≡ s
unfolding skip_ws
skip_ws-starts [] h = refl
skip_ws-starts (c ∷ cs) h =
    let space : is_space c ≡ false = ground (arith, h) in rw (space, skip_ws) refl

plain-StartsItem : (c : ℕ) → IsPlain c → starts c ≡ true
unfolding is_space
plain-StartsItem c h = ground arith

show_int-StartsItem : (i : ℤ) → StartsItem (show_int i)
show_int-StartsItem i =
    let (c, cs, e) = show_int-cons i in
    let plain = subst (All IsPlain) e (show_int-IsPlain i) in rw e (plain-StartsItem c plain.0)

float-StartsItem :
    (F : FloatText) (f : ℕ) (s : Text)
    → FloatText.parse F [] ≡ none
    → IsFloatOf F f s
    → StartsItem s
float-StartsItem F f [] e (h, k, p) = absurd (cc)
float-StartsItem F f (c ∷ cs) e (h, k, p) = plain-StartsItem c h.0

pub write_json-StartsItem :
    (F : FloatText) (L : IsFloatText F) (v : Value) → IsJsonWritable v → StartsItem (write_json F v)
unfolding write_json IsJsonWritable is_space write_quoted write_keyword
write_json-StartsItem F L nil h = refl
write_json-StartsItem F L (bool true) h = refl
write_json-StartsItem F L (bool false) h = refl
write_json-StartsItem F L (int i) h = show_int-StartsItem i
write_json-StartsItem F L (float f) h =
    float-StartsItem F f (fmt_float F f) (IsFloatText.parse-empty L) (fmt_float-IsFloatOf F L f h)
write_json-StartsItem F L (str s) h = refl
write_json-StartsItem F L (keyword k) h = refl
write_json-StartsItem F L (list items) h = refl
write_json-StartsItem F L (map pairs) h = refl

pub items_then-EndsNumber :
    (F : FloatText) (items : Values) (rest : Text)
    → EndsNumber (write_items F items false ++ b']' ∷ rest)
unfolding write_json is_number_char
items_then-EndsNumber F empty rest = refl
items_then-EndsNumber F (cons v items) rest = refl

pub pairs_then-EndsNumber :
    (F : FloatText) (pairs : Pairs) (rest : Text)
    → EndsNumber (write_pairs F pairs false ++ b'}' ∷ rest)
unfolding write_json is_number_char
pairs_then-EndsNumber F end rest = refl
pairs_then-EndsNumber F (pair k v pairs) rest = refl

module _ (F : FloatText) (fuel : ℕ) (rest : Text) where
  pub parse_value-nil : parse_value F (suc fuel) (codes "null" ++ rest) ≡ ok (nil, rest)
  unfolding parse_value skip_ws is_space lead parse_keyword_literal strip_prefix
  parse_value-nil = refl

  pub parse_value-bool :
      (b : Bool)
      → parse_value F (suc fuel) ((if b then codes "true" else codes "false") ++ rest)
        ≡ ok (bool b, rest)
  unfolding parse_value skip_ws is_space lead parse_keyword_literal strip_prefix
  parse_value-bool true = refl
  parse_value-bool false = refl

  pub parse_value-quoted :
      (s : Text) → parse_value F (suc fuel) (write_quoted s ++ rest) ≡ ok (str_to_value s, rest)
  unfolding parse_value skip_ws is_space lead write_quoted
  parse_value-quoted s =
      rw (append_assoc (push_escaped s) (b'"' ∷ []) rest, parse_string-push_escaped s rest) refl

  pub parse_value-keyword :
      (k : Text) → parse_value F (suc fuel) (write_keyword k ++ rest) ≡ ok (keyword k, rest)
  unfolding write_keyword write_quoted push_escaped escaped str_to_value
  parse_value-keyword k = parse_value-quoted (b':' ∷ k)
