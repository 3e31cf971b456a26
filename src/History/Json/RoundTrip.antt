-- ===== src/History/Json/RoundTrip.antt =====
-- What the writer of JSON writes, the reader reads back.
use mathlib.Core.List.{append_assoc, append-nil}
use propsim.Base.{
  ◌+◌, ◌*◌, length-append, ℕ, zero, suc, ◌<◌, ◌≡◌, refl, ap, ◌∙◌, sym, arith, inl, inr, Bool, true,
  false, Bool-cases, ◌==◌, Text, [], ◌∷◌, ◌++◌, length,
}
use propsim.History.Values.{
  Value, nil, bool, int, float, str, keyword, list, map, Values, empty, cons, Pairs, end, pair,
}
use propsim.History.Parsed.{ok}
use propsim.History.Edn.{FloatText, is_space, fmt_float, write_quoted, push_escaped}
use propsim.History.Edn.Numbers.{IsFloatText, fmt_float-IsFloatOf}
use propsim.History.Json.{str_to_value}
use propsim.History.Json.Write.{write_json, write_items, write_pairs, write_json_key}
use propsim.History.Json.Read.{
  finish, parse_json, skip_ws, lead, ahead, after_colon, parse_value, parse_object, parse_array,
}
use propsim.History.Json.Numbers.{parse_value-int, parse_value-float, EndsNumber}
use propsim.History.Json.Strings.{key_text, write_json_key-quoted, parse_string-push_escaped}
use propsim.History.Json.Values.{
  skip_ws-starts, IsJsonWritable, AreJsonWritable, ArePairsJsonWritable, through_json,
  items_through_json, pairs_through_json, StartsItem, StartsItem-length, write_json-StartsItem,
  items_then-EndsNumber, pairs_then-EndsNumber, parse_value-nil, parse_value-bool,
  parse_value-quoted, parse_value-keyword,
}

module _ (F : FloatText) (fuel : ℕ) where
  parse_array-item :
      (w tail rest : Text) (v : Value) (items : Values)
      → StartsItem w
      → parse_value F fuel (w ++ tail) ≡ ok (v, tail)
      → parse_array F fuel tail ≡ ok (items, rest)
      → parse_array F (suc fuel) (w ++ tail) ≡ ok (cons v items, rest)
  unfolding parse_value skip_ws ahead
  parse_array-item [] tail rest v items h value others = absurd h
  parse_array-item (c ∷ cs) tail rest v items h value others =
      let space : is_space c ≡ false = ground (arith, h) in
      let comma : (c == b',') ≡ false = ground (arith, h) in
      let bracket : (c == b']') ≡ false = ground (arith, h) in
      elim (Bool-cases (c == b'"')) [
        | inl e ↦ rw (space, bracket, comma, e, value, others) refl
        | inr e ↦ rw (space, bracket, comma, e, value, others) refl
      ]

  parse_array-comma : (t : Text) → parse_array F (suc fuel) (b',' ∷ t) ≡ parse_array F fuel t
  unfolding parse_value skip_ws ahead is_space
  parse_array-comma t = refl

  parse_object-comma : (t : Text) → parse_object F (suc fuel) (b',' ∷ t) ≡ parse_object F fuel t
  unfolding parse_value skip_ws ahead is_space
  parse_object-comma t = refl

  parse_object-pair :
      (key w tail rest : Text) (v : Value) (pairs : Pairs)
      → parse_value F fuel (w ++ tail) ≡ ok (v, tail)
      → parse_object F fuel tail ≡ ok (pairs, rest)
      → parse_object F (suc fuel) (write_quoted key ++ b':' ∷ (w ++ tail))
        ≡ ok (pair (str_to_value key) v pairs, rest)
  unfolding parse_value skip_ws ahead is_space write_quoted after_colon
  parse_object-pair key w tail rest v pairs value others =
      rw
        (
          append_assoc (push_escaped key) (b'"' ∷ []) (b':' ∷ (w ++ tail)),
          parse_string-push_escaped key (b':' ∷ (w ++ tail)),
          value,
          others,
        )
        refl

module _ (F : FloatText) (L : IsFloatText F) where
  mutual
    unfolding write_json IsJsonWritable through_json parse_value skip_ws lead ahead is_space

    parse_value-write_json :
        (fuel : ℕ) (v : Value) (rest : Text)
        → IsJsonWritable v
        → 2 * length (write_json F v) < fuel
        → EndsNumber rest
        → parse_value F fuel (write_json F v ++ rest) ≡ ok (through_json F v, rest)
    parse_value-write_json zero v rest h l e = absurd (omega arith)
    parse_value-write_json (suc fuel) nil rest h l e = parse_value-nil F fuel rest
    parse_value-write_json (suc fuel) (bool b) rest h l e = parse_value-bool F fuel rest b
    parse_value-write_json (suc fuel) (int i) rest h l e = parse_value-int F fuel i rest h e
    parse_value-write_json (suc fuel) (float f) rest h l e =
        parse_value-float F fuel f (fmt_float F f) rest (fmt_float-IsFloatOf F L f h) e
    parse_value-write_json (suc fuel) (str s) rest h l e = parse_value-quoted F fuel rest s
    parse_value-write_json (suc fuel) (keyword k) rest h l e = parse_value-keyword F fuel rest k
    parse_value-write_json (suc fuel) (list items) rest h l e =
        let ws = write_items F items true in
        rw
          (
            append_assoc ws (b']' ∷ []) rest,
            parse_array-write_items fuel items true rest h
                (omega (arith, l, length-append ws (b']' ∷ []))),
          )
          refl
    parse_value-write_json (suc fuel) (map pairs) rest h l e =
        let ws = write_pairs F pairs true in
        rw
          (
            append_assoc ws (b'}' ∷ []) rest,
            parse_object-write_pairs fuel pairs true rest h
                (omega (arith, l, length-append ws (b'}' ∷ []))),
          )
          refl

    parse_array-write_items :
        (fuel : ℕ) (items : Values) (first : Bool) (rest : Text)
        → AreJsonWritable items
        → 2 * length (write_items F items first) + 1 < fuel
        → parse_array F fuel (write_items F items first ++ b']' ∷ rest)
          ≡ ok (items_through_json F items, rest)
    parse_array-write_items zero items first rest h l = absurd (omega arith)
    parse_array-write_items (suc fuel) empty first rest h l = refl
    parse_array-write_items (suc fuel) (cons v items) false rest h l =
        let short : 2 * suc (length (write_items F (cons v items) true)) + 1 < suc fuel = l in
        parse_array-comma F fuel (write_items F (cons v items) true ++ b']' ∷ rest)
        ∙ parse_array-write_items fuel (cons v items) true rest h (omega (arith, short))
    parse_array-write_items (suc fuel) (cons v items) true rest h l =
        let w = write_json F v in
        let ws = write_items F items false in
        let tail = ws ++ b']' ∷ rest in
        let short : 2 * length (w ++ ws) + 1 < suc fuel = l in
        let first_char = write_json-StartsItem F L v h.0 in
        let some_char = StartsItem-length w first_char in
        let size = length-append w ws in
        let value =
          parse_value-write_json fuel v tail h.0 (omega (arith, short, size))
            (items_then-EndsNumber F items rest) in
        let others =
          parse_array-write_items fuel items false rest h.1
            (omega (arith, short, size, some_char)) in
        ap (parse_array F (suc fuel)) (append_assoc w ws (b']' ∷ rest))
        ∙ parse_array-item F fuel w tail rest _ _ first_char value others

    parse_object-write_pairs :
        (fuel : ℕ) (pairs : Pairs) (first : Bool) (rest : Text)
        → ArePairsJsonWritable pairs
        → 2 * length (write_pairs F pairs first) + 1 < fuel
        → parse_object F fuel (write_pairs F pairs first ++ b'}' ∷ rest)
          ≡ ok (pairs_through_json F pairs, rest)
    parse_object-write_pairs zero pairs first rest h l = absurd (omega arith)
    parse_object-write_pairs (suc fuel) end first rest h l = refl
    parse_object-write_pairs (suc fuel) (pair k v pairs) false rest h l =
        let short : 2 * suc (length (write_pairs F (pair k v pairs) true)) + 1 < suc fuel = l in
        parse_object-comma F fuel (write_pairs F (pair k v pairs) true ++ b'}' ∷ rest)
        ∙ parse_object-write_pairs fuel (pair k v pairs) true rest h (omega (arith, short))
    parse_object-write_pairs (suc fuel) (pair k v pairs) true rest h l =
        let key = write_json_key F k in
        let w = write_json F v in
        let ws = write_pairs F pairs false in
        let tail = ws ++ b'}' ∷ rest in
        let short : 2 * length (key ++ b':' ∷ (w ++ ws)) + 1 < suc fuel = l in
        let size = length-append key (b':' ∷ (w ++ ws)) in
        let size' = length-append w ws in
        let value =
          parse_value-write_json fuel v tail h.0 (omega (arith, short, size, size'))
            (pairs_then-EndsNumber F pairs rest) in
        let others =
          parse_object-write_pairs fuel pairs false rest h.1 (omega (arith, short, size, size')) in
        ap (parse_object F (suc fuel)) (
          append_assoc key (b':' ∷ (w ++ ws)) (b'}' ∷ rest)
          ∙ ap (λ t. key ++ b':' ∷ t) (append_assoc w ws (b'}' ∷ rest))
          ∙ ap (λ t. t ++ b':' ∷ (w ++ tail)) (write_json_key-quoted F k))
        ∙ parse_object-pair F fuel (key_text F k) w tail rest _ _ value others

  -- The reader of JSON reads every value whose integers are in range and whose floats are finite,
  -- of any depth, as what JSON keeps of it: a string that begins with a colon comes back as a
  -- keyword, and a key as the string, or the keyword, that it was written as.
  pub parse_json-write_json :
      (v : Value) → IsJsonWritable v → parse_json F (write_json F v) ≡ ok (through_json F v)
  unfolding parse_json finish skip_ws
  parse_json-write_json v h =
      let w = write_json F v in
      let value = parse_value-write_json (2 * length w + 1) v [] h (omega arith) tt in
      rw
        (
          skip_ws-starts w (write_json-StartsItem F L v h),
          ap (parse_value F (2 * length w + 1)) (sym (append-nil w)) ∙ value,
        )
        refl
