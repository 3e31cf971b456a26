-- ===== src/History/Json/Safe.antt =====
-- When the reader of JSON cannot panic.
use propsim.Base.{
  ℕ, zero, suc, ◌+◌, ◌*◌, ◌≡◌, arith, Text, [], ◌∷◌, length, subst, Option, none, some, Bool-cases,
  Option-cases, inl, inr, ◌==◌, codes, if_intro,
}
use propsim.Numerals.{parse_i64}
use propsim.Texts.{strip_prefix}
use propsim.History.Values.{ℤ, Value, Values, Pairs}
use propsim.History.Parsed.{Parsed, ok, err, json_missing_colon, NoPanic, NoPanic-bind}
use propsim.History.Edn.{FloatText}
use propsim.History.Json.Read.{
  skip_ws, plain, parse_string, literal, parse_keyword_literal, take_number, float_or_error,
  int_or_float, parse_number, Lead, nothing, opens_object, opens_array, opens_string, opens_literal,
  opens_number, lead, Ahead, at_end, closed, passed, quoted, other, ahead, after_colon, read_lead,
  read_pair, next_pair, next_item, parse_value, parse_object, parse_array, finish, parse_json,
}
use propsim.History.Json.Tame.{
  IsGuarded, LeavesGuarded, skip_ws-IsGuarded, take_number-IsGuarded, NoPanic-map,
  string_from-NoPanic,
}

parse_string-NoPanic : (s : Text) → IsGuarded s → NoPanic LeavesGuarded (parse_string s)
unfolding parse_string
parse_string-NoPanic s h = string_from-NoPanic s plain tt h

strip_prefix-IsGuarded :
    (p s rest : Text) → IsGuarded s → strip_prefix p s ≡ some rest → IsGuarded rest
unfolding strip_prefix
strip_prefix-IsGuarded [] s rest h e = let same : s ≡ rest = cc in subst IsGuarded same h
strip_prefix-IsGuarded (d ∷ p) [] rest h e = cc
strip_prefix-IsGuarded (d ∷ p) (c ∷ s) rest h e = elim (Bool-cases (d == c)) [
  | inl same ↦ strip_prefix-IsGuarded p s rest h.1 (rw (same, strip_prefix) at e)
  | inr differ ↦ let bad = rw (differ, strip_prefix) at e in cc
]

literal-NoPanic :
    (p s : Text) (v : Value) (els : Parsed (Value × Text))
    → IsGuarded s
    → NoPanic LeavesGuarded els
    → NoPanic LeavesGuarded (literal (strip_prefix p s) v els)
literal-NoPanic p s v els h k = elim (Option-cases (strip_prefix p s)) [
  | inl missing ↦ rw missing k
  | inr (rest, found) ↦ rw found (strip_prefix-IsGuarded p s rest h found)
]

after_colon-NoPanic : (s : Text) → IsGuarded s → NoPanic IsGuarded (after_colon s)
unfolding after_colon
after_colon-NoPanic [] h = tt
after_colon-NoPanic (c ∷ s) h =
    if_intro (NoPanic IsGuarded) (c == b':') (ok s) (err json_missing_colon) (λ _. h.1) (λ _. tt)

abbrev LeadGuarded : Lead → Type 0
LeadGuarded nothing = Unit
LeadGuarded (opens_object t) = IsGuarded t
LeadGuarded (opens_array t) = IsGuarded t
LeadGuarded (opens_string t) = IsGuarded t
LeadGuarded (opens_literal t) = IsGuarded t
LeadGuarded (opens_number t) = IsGuarded t

lead-LeadGuarded : (s : Text) → IsGuarded s → LeadGuarded (lead s)
unfolding lead
lead-LeadGuarded [] h = tt
lead-LeadGuarded (c ∷ s) h =
    let whole : IsGuarded (c ∷ s) = h in let there : IsGuarded s = h.1 in ground arith

abbrev AheadGuarded : Ahead → Type 0
AheadGuarded at_end = Unit
AheadGuarded (closed t) = IsGuarded t
AheadGuarded (passed t) = IsGuarded t
AheadGuarded (quoted t) = IsGuarded t
AheadGuarded (other t) = IsGuarded t

ahead-AheadGuarded : (bracket : ℕ) (s : Text) → IsGuarded s → AheadGuarded (ahead bracket s)
unfolding ahead
ahead-AheadGuarded bracket [] h = tt
ahead-AheadGuarded bracket (c ∷ s) h =
    let whole : IsGuarded (c ∷ s) = h in let there : IsGuarded s = h.1 in ground arith

module _ (rv : Text → Parsed (Value × Text))
    (hv : (t : Text) → IsGuarded t → NoPanic LeavesGuarded (rv t)) where
  next_item-NoPanic :
      (ri : Text → Parsed (Values × Text)) (a : Ahead)
      → ((t : Text) → IsGuarded t → NoPanic LeavesGuarded (ri t))
      → AheadGuarded a
      → NoPanic LeavesGuarded (next_item rv ri a)
  next_item-NoPanic ri at_end hi w = tt
  next_item-NoPanic ri (closed rest) hi w = w
  next_item-NoPanic ri (passed t) hi w = hi t w
  next_item-NoPanic ri (quoted t) hi w =
      NoPanic-bind LeavesGuarded LeavesGuarded (rv t) _ (hv t w)
        λ (v, t') k. NoPanic-map _ (ri t') (hi t' k)
  next_item-NoPanic ri (other t) hi w =
      NoPanic-bind LeavesGuarded LeavesGuarded (rv t) _ (hv t w)
        λ (v, t') k. NoPanic-map _ (ri t') (hi t' k)

  read_pair-NoPanic :
      (rp : Text → Parsed (Pairs × Text)) (t : Text)
      → ((t : Text) → IsGuarded t → NoPanic LeavesGuarded (rp t))
      → IsGuarded t
      → NoPanic LeavesGuarded (read_pair rv rp t)
  read_pair-NoPanic rp t hp w =
      NoPanic-bind LeavesGuarded LeavesGuarded (parse_string t) _ (parse_string-NoPanic t w)
        λ (key, t') k.
          NoPanic-bind IsGuarded LeavesGuarded (after_colon (skip_ws t')) _
            (after_colon-NoPanic (skip_ws t') (skip_ws-IsGuarded t' k))
            λ t'' k'.
              NoPanic-bind LeavesGuarded LeavesGuarded (rv t'') _ (hv t'' k')
                λ (v, t3) k3. NoPanic-map _ (rp t3) (hp t3 k3)

  next_pair-NoPanic :
      (rp : Text → Parsed (Pairs × Text)) (a : Ahead)
      → ((t : Text) → IsGuarded t → NoPanic LeavesGuarded (rp t))
      → AheadGuarded a
      → NoPanic LeavesGuarded (next_pair rv rp a)
  next_pair-NoPanic rp at_end hp w = tt
  next_pair-NoPanic rp (closed rest) hp w = w
  next_pair-NoPanic rp (passed t) hp w = hp t w
  next_pair-NoPanic rp (quoted []) hp w = tt
  next_pair-NoPanic rp (quoted (quote ∷ t)) hp w = read_pair-NoPanic rp t hp w.1
  next_pair-NoPanic rp (other t) hp w = tt

module _ (F : FloatText) where
  float_or_error-NoPanic :
      (tok : Text) (o : Option ℕ) → NoPanic (λ _. Unit {0}) (float_or_error F tok o)
  float_or_error-NoPanic tok none = tt
  float_or_error-NoPanic tok (some f) = tt

  int_or_float-NoPanic :
      (tok : Text) (o : Option ℤ) → NoPanic (λ _. Unit {0}) (int_or_float F tok o)
  int_or_float-NoPanic tok none = float_or_error-NoPanic tok (FloatText.parse F tok)
  int_or_float-NoPanic tok (some i) = tt

  read_lead-NoPanic :
      (rp : Text → Parsed (Pairs × Text)) (ri : Text → Parsed (Values × Text)) (l : Lead)
      → ((t : Text) → IsGuarded t → NoPanic LeavesGuarded (rp t))
      → ((t : Text) → IsGuarded t → NoPanic LeavesGuarded (ri t))
      → LeadGuarded l
      → NoPanic LeavesGuarded (read_lead F rp ri l)
  unfolding parse_keyword_literal parse_number
  read_lead-NoPanic rp ri nothing hp hi w = tt
  read_lead-NoPanic rp ri (opens_object t) hp hi w = NoPanic-map _ (rp t) (hp t w)
  read_lead-NoPanic rp ri (opens_array t) hp hi w = NoPanic-map _ (ri t) (hi t w)
  read_lead-NoPanic rp ri (opens_string t) hp hi w =
      NoPanic-map _ (parse_string t) (parse_string-NoPanic t w)
  read_lead-NoPanic rp ri (opens_literal t) hp hi w =
      literal-NoPanic (codes "true") t _ _ w
        (literal-NoPanic (codes "false") t _ _ w (literal-NoPanic (codes "null") t _ _ w tt))
  read_lead-NoPanic rp ri (opens_number t) hp hi w =
      let tok = (take_number t).0 in
      NoPanic-bind (λ _. Unit {0}) LeavesGuarded (int_or_float F tok (parse_i64 tok)) _
        (int_or_float-NoPanic tok (parse_i64 tok)) λ v _. take_number-IsGuarded t w

  mutual
    unfolding parse_value

    parse_value-NoPanic :
        (fuel : ℕ) (s : Text) → IsGuarded s → NoPanic LeavesGuarded (parse_value F fuel s)
    parse_value-NoPanic zero s h = tt
    parse_value-NoPanic (suc fuel) s h =
        read_lead-NoPanic _ _ (lead (skip_ws s)) (λ t k. parse_object-NoPanic fuel t k)
          (λ t k. parse_array-NoPanic fuel t k)
          (lead-LeadGuarded (skip_ws s) (skip_ws-IsGuarded s h))

    parse_object-NoPanic :
        (fuel : ℕ) (s : Text) → IsGuarded s → NoPanic LeavesGuarded (parse_object F fuel s)
    parse_object-NoPanic zero s h = tt
    parse_object-NoPanic (suc fuel) s h =
        next_pair-NoPanic _ (λ t k. parse_value-NoPanic fuel t k) _ (ahead b'}' (skip_ws s))
          (λ t k. parse_object-NoPanic fuel t k)
          (ahead-AheadGuarded b'}' (skip_ws s) (skip_ws-IsGuarded s h))

    parse_array-NoPanic :
        (fuel : ℕ) (s : Text) → IsGuarded s → NoPanic LeavesGuarded (parse_array F fuel s)
    parse_array-NoPanic zero s h = tt
    parse_array-NoPanic (suc fuel) s h =
        next_item-NoPanic _ (λ t k. parse_value-NoPanic fuel t k) _ (ahead b']' (skip_ws s))
          (λ t k. parse_array-NoPanic fuel t k)
          (ahead-AheadGuarded b']' (skip_ws s) (skip_ws-IsGuarded s h))

  finish-NoPanic : (s : Text) (v : Value) (rest : Text) → NoPanic (λ _. Unit {0}) (finish s v rest)
  unfolding finish
  finish-NoPanic s v [] = tt
  finish-NoPanic s v (c ∷ rest) = tt

  -- The reader of JSON does not panic on a text with no character of several bytes among the five
  -- behind a backslash.
  pub parse_json-NoPanic : (s : Text) → IsGuarded s → NoPanic (λ _. Unit {0}) (parse_json F s)
  unfolding parse_json
  parse_json-NoPanic s h =
      NoPanic-bind LeavesGuarded (λ _. Unit {0}) (parse_value F (2 * length s + 1) (skip_ws s)) _
        (parse_value-NoPanic (2 * length s + 1) (skip_ws s) (skip_ws-IsGuarded s h))
        λ (v, rest) _. finish-NoPanic s v (skip_ws rest)
