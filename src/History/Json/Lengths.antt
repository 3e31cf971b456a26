-- ===== src/History/Json/Lengths.antt =====
-- What each part of the reader of JSON leaves of the text.
use propsim.Base.{
  ℕ, suc, ◌+◌, ◌≤◌, ◌<◌, ◌≡◌, refl, arith, Bool-cases, inl, inr, true, false, ◌==◌, Text, [], ◌∷◌,
  length, Option, none, some, codes,
}
use propsim.Numerals.{parse_i64}
use propsim.Texts.{strip_prefix}
use propsim.History.Values.{Value, Values, Pairs, nil, bool, ℤ}
use propsim.History.Parsed.{
  Parsed, err, json_invalid_literal, json_invalid_number, Ensures, Ensures-bind, Leaves, Leaves-map,
  Leaves-weaken,
}
use propsim.History.Edn.{FloatText, is_space}
use propsim.History.Json.Read.{
  skip_ws, StringMode, plain, backslash, unicode, StringStep, close, crash, push, enter, refuse,
  string_step, continue, string_from, parse_string, literal, parse_keyword_literal, is_number_char,
  take_number, float_or_error, int_or_float, parse_number, Lead, nothing, opens_object, opens_array,
  opens_string, opens_literal, opens_number, lead, Ahead, at_end, closed, passed, quoted, other,
  ahead, after_colon, read_lead,
}

pub length-skip_ws : (s : Text) → length (skip_ws s) ≤ length s
unfolding skip_ws
length-skip_ws [] = omega arith
length-skip_ws (c ∷ s) = elim (Bool-cases (is_space c)) [
  | inl e ↦ let ih = length-skip_ws s in rw (e, skip_ws) (omega (arith, ih))
  | inr e ↦ rw (e, skip_ws) (omega arith)
]

length-take_number : (s : Text) → length (take_number s).0 + length (take_number s).1 ≡ length s
unfolding take_number
length-take_number [] = refl
length-take_number (c ∷ s) = elim (Bool-cases (is_number_char c)) [
  | inl e ↦ let ih = length-take_number s in rw (e, take_number) (omega (arith, ih))
  | inr e ↦ rw (e, take_number) (omega arith)
]

continue-Leaves :
    (read : StringMode → Parsed (Text × Text)) (s : Text) (step : StringStep)
    → ((mode : StringMode) → Ensures (Leaves (length s)) (read mode))
    → Ensures (Leaves (suc (length s))) (continue read s step)
continue-Leaves read s close h = omega arith
continue-Leaves read s crash h = tt
continue-Leaves read s (push d) h =
    Leaves-map _ (length s) (suc (length s)) (read plain) (omega arith) (h plain)
continue-Leaves read s (enter mode) h =
    Leaves-weaken (length s) (suc (length s)) (read mode) (omega arith) (h mode)
continue-Leaves read s (refuse e) h = tt

string_from-Leaves :
    (s : Text) (mode : StringMode) → Ensures (Leaves (length s)) (string_from s mode)
unfolding string_from
string_from-Leaves [] plain = tt
string_from-Leaves [] backslash = tt
string_from-Leaves [] (unicode n hex) = tt
string_from-Leaves (c ∷ s) mode =
    continue-Leaves (λ m. string_from s m) s (string_step mode c) (string_from-Leaves s)

pub parse_string-Leaves : (s : Text) → Ensures (Leaves (length s)) (parse_string s)
unfolding parse_string
parse_string-Leaves s = string_from-Leaves s plain

-- A prefix that is there is behind the text that is left.
abbrev Strips : ℕ → Option Text → Type 0
Strips n none = Unit
Strips n (some rest) = length rest ≤ n

strip_prefix-Strips : (p s : Text) → Strips (length s) (strip_prefix p s)
unfolding strip_prefix
strip_prefix-Strips [] s = omega arith
strip_prefix-Strips (c ∷ p) [] = tt
strip_prefix-Strips (c ∷ p) (d ∷ s) = elim (Bool-cases (c == d)) [
  | inl e ↦ rw (e, strip_prefix) (weaken (strip_prefix p s) (strip_prefix-Strips p s))
  | inr e ↦ rw (e, strip_prefix) tt
]
  where
    weaken : (o : Option Text) → Strips (length s) o → Strips (suc (length s)) o
    weaken none h = tt
    weaken (some rest) h = omega (arith, h)

-- One character of the prefix at least.
strip_prefix_shorter : (c d : ℕ) (p s : Text) → Strips (length s) (strip_prefix (c ∷ p) (d ∷ s))
unfolding strip_prefix
strip_prefix_shorter c d p s = elim (Bool-cases (c == d)) [
  | inl e ↦ rw (e, strip_prefix) (strip_prefix-Strips p s)
  | inr e ↦ rw (e, strip_prefix) tt
]

literal-Leaves :
    (n : ℕ) (o : Option Text) (v : Value) (r : Parsed (Value × Text))
    → Strips n o
    → Ensures (Leaves (suc n)) r
    → Ensures (Leaves (suc n)) (literal o v r)
literal-Leaves n none v r h k = k
literal-Leaves n (some rest) v r h k = omega (arith, h)

parse_keyword_literal-Leaves :
    (c : ℕ) (s : Text) → Ensures (Leaves (suc (length s))) (parse_keyword_literal (c ∷ s))
unfolding parse_keyword_literal
parse_keyword_literal-Leaves c s =
    let n = length s in
    literal-Leaves n _ (bool true) _ (strip_prefix_shorter b't' c (codes "rue") s) (
      literal-Leaves n _ (bool false) _ (strip_prefix_shorter b'f' c (codes "alse") s) (
        literal-Leaves n _ nil (err json_invalid_literal)
          (strip_prefix_shorter b'n' c (codes "ull") s) tt))

-- The text that a reader starts at is within the text that is left.
abbrev pub Starts : ℕ → Text → Type 0
Starts n [] = ⊥
Starts n (c ∷ t) = length t < n

abbrev pub LeadWithin : ℕ → Lead → Type 0
LeadWithin n nothing = Unit
LeadWithin n (opens_object t) = length t < n
LeadWithin n (opens_array t) = length t < n
LeadWithin n (opens_string t) = length t < n
LeadWithin n (opens_literal t) = Starts n t
LeadWithin n (opens_number t) = Starts n t

pub lead-LeadWithin : (s : Text) → LeadWithin (length s) (lead s)
unfolding lead
lead-LeadWithin [] = tt
lead-LeadWithin (c ∷ s) = ground arith

abbrev pub AheadWithin : ℕ → Ahead → Type 0
AheadWithin n at_end = Unit
AheadWithin n (closed t) = length t < n
AheadWithin n (passed t) = length t < n
AheadWithin n (quoted t) = length t ≤ n
AheadWithin n (other t) = length t ≤ n

pub ahead-AheadWithin : (bracket : ℕ) (s : Text) → AheadWithin (length s) (ahead bracket s)
unfolding ahead
ahead-AheadWithin bracket [] = tt
ahead-AheadWithin bracket (c ∷ s) = ground arith

pub after_colon-Ensures : (s : Text) → Ensures (λ rest. length rest < length s) (after_colon s)
unfolding after_colon
after_colon-Ensures [] = tt
after_colon-Ensures (c ∷ s) = elim (Bool-cases (c == b':')) [
  | inl e ↦ rw (e, after_colon) (omega arith)
  | inr e ↦ rw (e, after_colon) tt
]

module _ (F : FloatText) (parse-empty : FloatText.parse F [] ≡ none) where
  float_or_error-Ensures :
      (tok : Text) (o : Option ℕ) → Ensures (λ _. Unit {0}) (float_or_error F tok o)
  float_or_error-Ensures tok none = tt
  float_or_error-Ensures tok (some f) = tt

  int_or_float-Ensures :
      (tok : Text) (o : Option ℤ) → Ensures (λ _. Unit {0}) (int_or_float F tok o)
  int_or_float-Ensures tok none = float_or_error-Ensures tok (FloatText.parse F tok)
  int_or_float-Ensures tok (some i) = tt

  no_number : int_or_float F [] (parse_i64 []) ≡ err (json_invalid_number [])
  unfolding parse_i64
  no_number = rw parse-empty refl

  parse_number-Leaves :
      (c : ℕ) (s : Text) → Ensures (Leaves (suc (length s))) (parse_number F (c ∷ s))
  unfolding parse_number take_number
  parse_number-Leaves c s = elim (Bool-cases (is_number_char c)) [
    | inl e ↦
        let tok = c ∷ (take_number s).0 in
        rw (e, take_number)
          (Ensures-bind (λ _. Unit {0}) (Leaves (suc (length s)))
            (int_or_float F tok (parse_i64 tok)) _ (int_or_float-Ensures tok (parse_i64 tok))
            λ v _. omega (arith, length-take_number s))
    | inr e ↦ rw (e, take_number, no_number) tt
  ]

  pub read_lead-Leaves :
      (n : ℕ) (rp : Text → Parsed (Pairs × Text)) (ri : Text → Parsed (Values × Text)) (l : Lead)
      → ((t : Text) → length t < n → Ensures (Leaves (length t)) (rp t))
      → ((t : Text) → length t < n → Ensures (Leaves (length t)) (ri t))
      → LeadWithin n l
      → Ensures (Leaves n) (read_lead F rp ri l)
  read_lead-Leaves n rp ri nothing hp hi w = tt
  read_lead-Leaves n rp ri (opens_object t) hp hi w =
      Leaves-map _ (length t) n (rp t) (omega (arith, w)) (hp t w)
  read_lead-Leaves n rp ri (opens_array t) hp hi w =
      Leaves-map _ (length t) n (ri t) (omega (arith, w)) (hi t w)
  read_lead-Leaves n rp ri (opens_string t) hp hi w =
      Leaves-map _ (length t) n (parse_string t) (omega (arith, w)) (parse_string-Leaves t)
  read_lead-Leaves n rp ri (opens_literal []) hp hi w = absurd w
  read_lead-Leaves n rp ri (opens_literal (c ∷ t)) hp hi w =
      Leaves-weaken (suc (length t)) n (parse_keyword_literal (c ∷ t)) (omega (arith, w))
        (parse_keyword_literal-Leaves c t)
  read_lead-Leaves n rp ri (opens_number []) hp hi w = absurd w
  read_lead-Leaves n rp ri (opens_number (c ∷ t)) hp hi w =
      Leaves-weaken (suc (length t)) n (parse_number F (c ∷ t)) (omega (arith, w))
        (parse_number-Leaves c t)
