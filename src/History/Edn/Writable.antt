-- ===== src/History/Edn/Writable.antt =====
-- The values that the writer of EDN writes so that they can be read, and what their parts are read
-- back as.
use mathlib.Core.List.{append_assoc}
use propsim.Base.{
  text_eq, ℕ, zero, suc, ◌<◌, ◌≡◌, refl, Bool-cases, inl, inr, arith, Bool, true, false, Text, [],
  ◌∷◌, ◌++◌, All, codes, length, if◌then◌else◌,
}
use propsim.Float64.{is_finite}
use propsim.Numerals.Correct.{IsI64}
use propsim.History.Values.{
  Value, nil, bool, int, float, str, keyword, list, map, Values, empty, cons, Pairs, end, pair,
}
use propsim.History.Parsed.{ok}
use propsim.History.Edn.{FloatText, is_delim, is_space, fmt_float, write_quoted, push_escaped}
use propsim.History.Edn.Write.{gap, pair_gap, write_edn, write_items, write_pairs}
use propsim.History.Edn.Read.{
  atom_value, parse_string, parse_keyword, skip_from, lead, next_item, next_pair, more, skips,
  skip_ws, parse_value, parse_pairs, parse_items,
}
use propsim.History.Edn.Strings.{string_from-push_escaped}
use propsim.History.Edn.Tokens.{
  skip_ws-gap, skip_ws-pair_gap, ahead-starts, StartsValue, IsTokenChar, Ends, parse_value-token,
  take_token-append,
}
use propsim.History.Edn.Numbers.{
  fmt_float-nil, show_int-StartsValue, fmt_float-StartsValue, IsFloatText, parse_value-float,
}

-- A keyword is a token that is not empty, and an integer is in range.

unfoldable mutual
  pub IsWritable : Value → Type 0
  IsWritable nil = Unit
  IsWritable (bool b) = Unit
  IsWritable (int i) = IsI64 i
  IsWritable (float f) = Unit
  IsWritable (str s) = Unit
  IsWritable (keyword []) = ⊥
  IsWritable (keyword (c ∷ cs)) = All IsTokenChar (c ∷ cs)
  IsWritable (list items) = AreWritable items
  IsWritable (map pairs) = ArePairsWritable pairs

  pub AreWritable : Values → Type 0
  AreWritable empty = Unit
  AreWritable (cons v items) = IsWritable v × AreWritable items

  pub ArePairsWritable : Pairs → Type 0
  ArePairsWritable end = Unit
  ArePairsWritable (pair k v pairs) = IsWritable k × IsWritable v × ArePairsWritable pairs

-- The value with nil for each float that is not finite.
unfoldable mutual
  pub readable : Value → Value
  readable nil = nil
  readable (bool b) = bool b
  readable (int i) = int i
  readable (float f) = if is_finite f then float f else nil
  readable (str s) = str s
  readable (keyword k) = keyword k
  readable (list items) = list (readable_items items)
  readable (map pairs) = map (readable_pairs pairs)

  pub readable_items : Values → Values
  readable_items empty = empty
  readable_items (cons v items) = cons (readable v) (readable_items items)

  pub readable_pairs : Pairs → Pairs
  readable_pairs end = end
  readable_pairs (pair k v pairs) = pair (readable k) (readable v) (readable_pairs pairs)

pub StartsValue-length : (s : Text) → StartsValue s → 0 < length s
StartsValue-length [] h = absurd h
StartsValue-length (c ∷ cs) h = omega arith

module _ (F : FloatText) where
  pub items_then-Ends :
      (items : Values) (rest : Text) → Ends (write_items F items false ++ b']' ∷ rest)
  unfolding write_edn is_delim is_space
  items_then-Ends empty rest = refl
  items_then-Ends (cons v items) rest = refl

  pub pairs_then-Ends :
      (pairs : Pairs) (rest : Text) → Ends (write_pairs F pairs false ++ b'}' ∷ rest)
  unfolding write_edn is_delim is_space
  pairs_then-Ends end rest = refl
  pairs_then-Ends (pair k v pairs) rest = refl

  pub parse_items-more :
      (fuel : ℕ) (first : Bool) (w : Text)
      → StartsValue w
      → parse_items F (suc fuel) b']' (gap first ++ w)
        ≡ next_item (λ t. parse_value F fuel t) (λ t. parse_items F fuel b']' t) (more w)
  unfolding parse_value skips is_space
  parse_items-more fuel first w h = rw (skip_ws-gap first w h, ahead-starts b']' w refl h) refl

  pub parse_pairs-more :
      (fuel : ℕ) (first : Bool) (w : Text)
      → StartsValue w
      → parse_pairs F (suc fuel) (pair_gap first ++ w)
        ≡ next_pair (λ t. parse_value F fuel t) (λ t. parse_pairs F fuel t) (more w)
  unfolding parse_value skips is_space
  parse_pairs-more fuel first w h = rw (skip_ws-pair_gap first w h, ahead-starts b'}' w refl h) refl

  pub parse_value-nil :
      (fuel : ℕ) (rest : Text)
      → Ends rest
      → parse_value F (suc fuel) (codes "nil" ++ rest) ≡ ok (nil, rest)
  unfolding atom_value text_eq is_delim is_space
  parse_value-nil fuel rest e =
      parse_value-token F fuel b'n' (codes "il") rest nil (refl, (refl, (refl, tt))) refl e refl

  pub parse_value-bool :
      (fuel : ℕ) (b : Bool) (rest : Text)
      → Ends rest
      → parse_value F (suc fuel) ((if b then codes "true" else codes "false") ++ rest)
        ≡ ok (bool b, rest)
  unfolding atom_value text_eq is_delim is_space
  parse_value-bool fuel true rest e =
      parse_value-token F fuel b't' (codes "rue") rest (bool true)
        (refl, (refl, (refl, (refl, tt)))) refl e refl
  parse_value-bool fuel false rest e =
      parse_value-token F fuel b'f' (codes "alse") rest (bool false)
        (refl, (refl, (refl, (refl, (refl, tt))))) refl e refl

  pub parse_value-str :
      (fuel : ℕ) (s rest : Text)
      → parse_value F (suc fuel) (write_quoted s ++ rest) ≡ ok (str s, rest)
  unfolding parse_value parse_string write_quoted skip_ws skip_from skips is_space lead
  parse_value-str fuel s rest =
      rw (append_assoc (push_escaped s) (b'"' ∷ []) rest, string_from-push_escaped s rest) refl

  pub parse_value-keyword :
      (fuel c : ℕ) (cs rest : Text)
      → All IsTokenChar (c ∷ cs)
      → Ends rest
      → parse_value F (suc fuel) (b':' ∷ (c ∷ cs) ++ rest) ≡ ok (keyword (c ∷ cs), rest)
  unfolding parse_value parse_keyword skip_ws skip_from skips is_space lead
  parse_value-keyword fuel c cs rest h e = rw (take_token-append (c ∷ cs) rest h e) refl

  pub parse_value-space :
      (fuel : ℕ) (t : Text) → parse_value F fuel (b' ' ∷ t) ≡ parse_value F fuel t
  unfolding parse_value skip_ws skip_from skips is_space
  parse_value-space zero t = refl
  parse_value-space (suc fuel) t = refl

module _ (F : FloatText) (L : IsFloatText F) where
  pub write_edn-StartsValue : (v : Value) → IsWritable v → StartsValue (write_edn F v)
  unfolding write_edn skips is_space write_quoted
  write_edn-StartsValue nil h = refl
  write_edn-StartsValue (bool true) h = refl
  write_edn-StartsValue (bool false) h = refl
  write_edn-StartsValue (int i) h = show_int-StartsValue i
  write_edn-StartsValue (float f) h = fmt_float-StartsValue F L f
  write_edn-StartsValue (str s) h = refl
  write_edn-StartsValue (keyword k) h = refl
  write_edn-StartsValue (list items) h = refl
  write_edn-StartsValue (map pairs) h = refl

  pub parse_value-float_text :
      (fuel f : ℕ) (rest : Text)
      → Ends rest
      → parse_value F (suc fuel) (fmt_float F f ++ rest) ≡ ok (readable (float f), rest)
  unfolding readable
  parse_value-float_text fuel f rest e = elim (Bool-cases (is_finite f)) [
    | inl h ↦ rw h (parse_value-float F L fuel f rest h e)
    | inr h ↦ rw (h, fmt_float-nil F f h) (parse_value-nil F fuel rest e)
  ]
