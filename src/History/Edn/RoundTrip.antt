-- ===== src/History/Edn/RoundTrip.antt =====
-- What the writer of EDN writes, the reader reads back.
use mathlib.Core.List.{append_assoc, append-nil}
use propsim.Base.{
  ℕ, zero, suc, ◌+◌, ◌*◌, ◌<◌, ◌≡◌, refl, ap, ◌∙◌, sym, arith, Bool, true, false, Text, [], ◌∷◌,
  ◌++◌, length, length-append,
}
use propsim.History.Values.{
  Value, nil, bool, int, float, str, keyword, list, map, Values, empty, cons, Pairs, end, pair,
}
use propsim.History.Parsed.{ok}
use propsim.History.Edn.{FloatText, is_delim, is_space}
use propsim.History.Edn.Write.{gap, pair_gap, write_edn, write_items, write_pairs}
use propsim.History.Edn.Read.{
  finish, skip_from, lead, ahead, skips, skip_ws, parse_value, parse_pairs, parse_items, parse_edn,
}
use propsim.History.Edn.Tokens.{skip_ws-starts, StartsValue-append, Ends}
use propsim.History.Edn.Numbers.{IsFloatText, parse_value-int}
use propsim.History.Edn.Writable.{
  IsWritable, AreWritable, ArePairsWritable, readable, readable_items, readable_pairs,
  write_edn-StartsValue, items_then-Ends, pairs_then-Ends, parse_items-more, parse_pairs-more,
  parse_value-nil, parse_value-bool, parse_value-str, parse_value-keyword, parse_value-float_text,
  parse_value-space, StartsValue-length,
}

module _ (F : FloatText) (L : IsFloatText F) where
  mutual
    unfolding write_edn IsWritable readable is_delim parse_value skip_ws skip_from skips is_space
        lead ahead

    parse_value-write_edn :
        (v : Value) (fuel : ℕ) (rest : Text)
        → IsWritable v
        → 2 * length (write_edn F v) < fuel
        → Ends rest
        → parse_value F fuel (write_edn F v ++ rest) ≡ ok (readable v, rest)
    parse_value-write_edn v zero rest h l e = absurd (omega arith)
    parse_value-write_edn nil (suc fuel) rest h l e = parse_value-nil F fuel rest e
    parse_value-write_edn (bool b) (suc fuel) rest h l e = parse_value-bool F fuel b rest e
    parse_value-write_edn (int i) (suc fuel) rest h l e = parse_value-int F fuel i rest h e
    parse_value-write_edn (float f) (suc fuel) rest h l e = parse_value-float_text F L fuel f rest e
    parse_value-write_edn (str s) (suc fuel) rest h l e = parse_value-str F fuel s rest
    parse_value-write_edn (keyword []) (suc fuel) rest h l e = absurd h
    parse_value-write_edn (keyword (c ∷ cs)) (suc fuel) rest h l e =
        parse_value-keyword F fuel c cs rest h e
    parse_value-write_edn (list items) (suc fuel) rest h l e =
        let ws = write_items F items true in
        rw
          (
            append_assoc ws (b']' ∷ []) rest,
            parse_items-write_items items true fuel rest h
                (omega (arith, l, length-append ws (b']' ∷ []))),
          )
          refl
    parse_value-write_edn (map pairs) (suc fuel) rest h l e =
        let ws = write_pairs F pairs true in
        rw
          (
            append_assoc ws (b'}' ∷ []) rest,
            parse_pairs-write_pairs pairs true fuel rest h
                (omega (arith, l, length-append ws (b'}' ∷ []))),
          )
          refl

    parse_items-write_items :
        (items : Values) (first : Bool) (fuel : ℕ) (rest : Text)
        → AreWritable items
        → 2 * length (write_items F items first) + 1 < fuel
        → parse_items F fuel b']' (write_items F items first ++ b']' ∷ rest)
          ≡ ok (readable_items items, rest)
    parse_items-write_items items first zero rest h l = absurd (omega arith)
    parse_items-write_items empty first (suc fuel) rest h l = refl
    parse_items-write_items (cons v items) first (suc fuel) rest h l =
        let w = write_edn F v in
        let ws = write_items F items false in
        let tail = ws ++ b']' ∷ rest in
        let short : 2 * length (gap first ++ (w ++ ws)) + 1 < suc fuel = l in
        let first_char = write_edn-StartsValue F L v h.0 in
        let some_char = StartsValue-length w first_char in
        let size = length-append (gap first) (w ++ ws) in
        let size' = length-append w ws in
        let value =
          parse_value-write_edn v fuel tail h.0 (omega (arith, short, size, size'))
            (items_then-Ends F items rest) in
        let others =
          parse_items-write_items items false fuel rest h.1
            (omega (arith, short, size, size', some_char)) in
        ap (parse_items F (suc fuel) b']') (
          append_assoc (gap first) (w ++ ws) (b']' ∷ rest)
          ∙ ap (λ t. gap first ++ t) (append_assoc w ws (b']' ∷ rest)))
        ∙ parse_items-more F fuel first (w ++ tail) (StartsValue-append w tail first_char)
        ∙ rw (value, others) refl

    parse_pairs-write_pairs :
        (pairs : Pairs) (first : Bool) (fuel : ℕ) (rest : Text)
        → ArePairsWritable pairs
        → 2 * length (write_pairs F pairs first) + 1 < fuel
        → parse_pairs F fuel (write_pairs F pairs first ++ b'}' ∷ rest)
          ≡ ok (readable_pairs pairs, rest)
    parse_pairs-write_pairs pairs first zero rest h l = absurd (omega arith)
    parse_pairs-write_pairs end first (suc fuel) rest h l = refl
    parse_pairs-write_pairs (pair k v pairs) first (suc fuel) rest h l =
        let w = write_edn F k in
        let w' = write_edn F v in
        let ws = write_pairs F pairs false in
        let tail = ws ++ b'}' ∷ rest in
        let short : 2 * length (pair_gap first ++ (w ++ b' ' ∷ (w' ++ ws))) + 1 < suc fuel = l in
        let first_char = write_edn-StartsValue F L k h.0 in
        let some_char = StartsValue-length w first_char in
        let size = length-append (pair_gap first) (w ++ b' ' ∷ (w' ++ ws)) in
        let size' = length-append w (b' ' ∷ (w' ++ ws)) in
        let size'' = length-append w' ws in
        let key =
          parse_value-write_edn k fuel (b' ' ∷ (w' ++ tail)) h.0
            (omega (arith, short, size, size', size'')) refl in
        let value =
          parse_value-write_edn v fuel tail h.1 (omega (arith, short, size, size', size''))
            (pairs_then-Ends F pairs rest) in
        let others =
          parse_pairs-write_pairs pairs false fuel rest h.2
            (omega (arith, short, size, size', size'', some_char)) in
        ap (parse_pairs F (suc fuel)) (
          append_assoc (pair_gap first) (w ++ b' ' ∷ (w' ++ ws)) (b'}' ∷ rest)
          ∙ ap (λ t. pair_gap first ++ t) (append_assoc w (b' ' ∷ (w' ++ ws)) (b'}' ∷ rest))
          ∙ ap (λ t. pair_gap first ++ (w ++ b' ' ∷ t)) (append_assoc w' ws (b'}' ∷ rest)))
        ∙ parse_pairs-more F fuel first (w ++ b' ' ∷ (w' ++ tail))
            (StartsValue-append w _ first_char)
        ∙ rw (key, parse_value-space F fuel (w' ++ tail) ∙ value, others) refl

  -- The reader of EDN gives back every value whose keywords are tokens and whose integers are in
  -- range, of any depth, with nil for each float that is not finite.
  pub parse_edn-write_edn :
      (v : Value) → IsWritable v → parse_edn F (write_edn F v) ≡ ok (readable v)
  unfolding parse_edn finish skip_ws skip_from
  parse_edn-write_edn v h =
      let w = write_edn F v in
      let start = skip_ws-starts w (write_edn-StartsValue F L v h) in
      let value = parse_value-write_edn v (2 * length w + 1) [] h (omega arith) tt in
      rw (start, ap (parse_value F (2 * length w + 1)) (sym (append-nil w)) ∙ value) refl
