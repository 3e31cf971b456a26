-- ===== src/History/Edn/Lengths.antt =====
-- What each part of the reader of EDN leaves of the text.
use propsim.Base.{
  text_eq, ℕ, suc, ◌+◌, ◌≤◌, ◌<◌, ◌≡◌, refl, arith, Bool-cases, inl, inr, Bool, true, false, ◌==◌,
  leb, Text, [], ◌∷◌, length, Option, none, some,
}
use propsim.Numerals.{parse_i64}
use propsim.History.Values.{ℤ, Value, Values, Pairs}
use propsim.History.Parsed.{
  unrecognized_token, Parsed, err, Ensures, Ensures-bind, Leaves, Leaves-map, Leaves-weaken,
}
use propsim.History.Edn.{FloatText, is_delim}
use propsim.History.Edn.Read.{
  skips, comment_after, skip_from, skip_ws, take_token, keyword_or_error, parse_keyword,
  int_or_float, float_or_error, trim_suffix, atom_value, parse_atom, string_from, parse_string,
  Lead, nothing, opens_map, opens_seq, opens_string, opens_keyword, opens_atom, lead, Ahead, at_end,
  closed, more, ahead, read_lead, next_pair, next_item,
}

length-skip_from : (b : Bool) (s : Text) → length (skip_from b s) ≤ length s
unfolding skip_from
length-skip_from b [] = omega arith
length-skip_from b (c ∷ s) = elim (Bool-cases (skips b c)) [
  | inl e ↦ let ih = length-skip_from (comment_after b c) s in rw (e, skip_from) (omega (arith, ih))
  | inr e ↦ rw (e, skip_from) (omega arith)
]

pub length-skip_ws : (s : Text) → length (skip_ws s) ≤ length s
unfolding skip_ws
length-skip_ws s = length-skip_from false s

length-take_token : (s : Text) → length (take_token s).0 + length (take_token s).1 ≡ length s
unfolding take_token
length-take_token [] = refl
length-take_token (c ∷ s) = elim (Bool-cases (is_delim c)) [
  | inl e ↦ rw (e, take_token) (omega arith)
  | inr e ↦ let ih = length-take_token s in rw (e, take_token) (omega (arith, ih))
]

string_from-Leaves : (b : Bool) (s : Text) → Ensures (Leaves (length s)) (string_from b s)
unfolding string_from
string_from-Leaves false [] = tt
string_from-Leaves true [] = tt
string_from-Leaves true (c ∷ s) = elim (Bool-cases (leb 128 c)) [
  | inl e ↦ rw (e, string_from) tt
  | inr e ↦
      rw (e, string_from)
        (Leaves-map _ (length s) (suc (length s)) (string_from false s) (omega arith)
          (string_from-Leaves false s))
]
string_from-Leaves false (c ∷ s) = elim (Bool-cases (c == b'"')) [
  | inl e ↦ rw (e, string_from) (omega arith)
  | inr e ↦ elim (Bool-cases (c == b'\\')) [
    | inl e' ↦
        rw (e, string_from, e')
          (Leaves-weaken (length s) (suc (length s)) (string_from true s) (omega arith)
            (string_from-Leaves true s))
    | inr e' ↦
        rw (e, string_from, e')
          (Leaves-map _ (length s) (suc (length s)) (string_from false s) (omega arith)
            (string_from-Leaves false s))
  ]
]

parse_keyword-Leaves : (s : Text) → Ensures (Leaves (suc (length s))) (parse_keyword s)
unfolding parse_keyword
parse_keyword-Leaves s = keyword_lem (take_token s).0 (take_token s).1 (length-take_token s)
  where
    keyword_lem :
        (tok rest : Text)
        → length tok + length rest ≡ length s
        → Ensures (Leaves (suc (length s))) (keyword_or_error tok rest)
    keyword_lem [] rest h = tt
    keyword_lem (c ∷ cs) rest h = omega (arith, h)

-- The text that a reader starts at is within the text that is left.
abbrev pub LeadWithin : ℕ → Lead → Type 0
LeadWithin n nothing = Unit
LeadWithin n (opens_map t) = length t < n
LeadWithin n (opens_seq close t) = length t < n
LeadWithin n (opens_string t) = length t < n
LeadWithin n (opens_keyword t) = length t < n
LeadWithin n (opens_atom []) = ⊥
LeadWithin n (opens_atom (c ∷ t)) = length t < n

pub lead-LeadWithin : (s : Text) → LeadWithin (length s) (lead s)
unfolding lead
lead-LeadWithin [] = tt
lead-LeadWithin (c ∷ s) = ground arith

abbrev pub AheadWithin : ℕ → Ahead → Type 0
AheadWithin n at_end = Unit
AheadWithin n (closed t) = length t < n
AheadWithin n (more t) = length t ≤ n

pub ahead-AheadWithin : (close : ℕ) (s : Text) → AheadWithin (length s) (ahead close s)
unfolding ahead
ahead-AheadWithin close [] = tt
ahead-AheadWithin close (c ∷ s) = elim (Bool-cases (c == close)) [
  | inl e ↦ rw (e, ahead) (omega arith)
  | inr e ↦ rw (e, ahead) (omega arith)
]

module _ (F : FloatText) (parse-empty : FloatText.parse F [] ≡ none) where
  float_or_error-Ensures :
      (tok : Text) (o : Option ℕ) → Ensures (λ _. Unit {0}) (float_or_error F tok o)
  float_or_error-Ensures tok none = tt
  float_or_error-Ensures tok (some f) = tt

  int_or_float-Ensures :
      (tok : Text) (o : Option ℤ) → Ensures (λ _. Unit {0}) (int_or_float F tok o)
  int_or_float-Ensures tok none = float_or_error-Ensures tok (FloatText.parse F (trim_suffix tok))
  int_or_float-Ensures tok (some i) = tt

  atom_value-Ensures : (tok : Text) → Ensures (λ _. Unit {0}) (atom_value F tok)
  unfolding atom_value
  atom_value-Ensures tok = ground (arith, int_or_float-Ensures tok (parse_i64 tok))

  atom_value-empty : atom_value F [] ≡ err (unrecognized_token [])
  unfolding atom_value parse_i64 text_eq trim_suffix
  atom_value-empty = rw parse-empty refl

  parse_atom-Leaves : (c : ℕ) (s : Text) → Ensures (Leaves (suc (length s))) (parse_atom F (c ∷ s))
  unfolding parse_atom take_token
  parse_atom-Leaves c s = elim (Bool-cases (is_delim c)) [
    | inl e ↦ rw (e, take_token, atom_value-empty) tt
    | inr e ↦
        rw (e, take_token)
          (Ensures-bind (λ _. Unit {0}) (Leaves (suc (length s)))
            (atom_value F (c ∷ (take_token s).0)) _ (atom_value-Ensures (c ∷ (take_token s).0))
            λ v _. omega (arith, length-take_token s))
  ]

  parse_string-Leaves : (s : Text) → Ensures (Leaves (length s)) (parse_string s)
  unfolding parse_string
  parse_string-Leaves s =
      Leaves-map _ (length s) (length s) (string_from false s) (omega arith)
        (string_from-Leaves false s)

  -- Given readers of what is inside, on texts shorter than `n`.
  pub read_lead-Leaves :
      (n : ℕ) (read_pairs : Text → Parsed (Pairs × Text))
      (read_items : ℕ → Text → Parsed (Values × Text)) (l : Lead)
      → ((t : Text) → length t < n → Ensures (Leaves (length t)) (read_pairs t))
      → ((close : ℕ) (t : Text) → length t < n → Ensures (Leaves (length t)) (read_items close t))
      → LeadWithin n l
      → Ensures (Leaves n) (read_lead F read_pairs read_items l)
  read_lead-Leaves n rp ri nothing hp hi w = tt
  read_lead-Leaves n rp ri (opens_map t) hp hi w =
      Leaves-map _ (length t) n (rp t) (omega (arith, w)) (hp t w)
  read_lead-Leaves n rp ri (opens_seq close t) hp hi w =
      Leaves-map _ (length t) n (ri close t) (omega (arith, w)) (hi close t w)
  read_lead-Leaves n rp ri (opens_string t) hp hi w =
      Leaves-weaken (length t) n (parse_string t) (omega (arith, w)) (parse_string-Leaves t)
  read_lead-Leaves n rp ri (opens_keyword t) hp hi w =
      Leaves-weaken (suc (length t)) n (parse_keyword t) (omega (arith, w)) (parse_keyword-Leaves t)
  read_lead-Leaves n rp ri (opens_atom []) hp hi w = absurd w
  read_lead-Leaves n rp ri (opens_atom (c ∷ t)) hp hi w =
      Leaves-weaken (suc (length t)) n (parse_atom F (c ∷ t)) (omega (arith, w))
        (parse_atom-Leaves c t)

pub next_item-Leaves :
    (n : ℕ) (rv : Text → Parsed (Value × Text)) (ri : Text → Parsed (Values × Text)) (a : Ahead)
    → ((t : Text) → length t ≤ n → Ensures (Leaves (length t)) (rv t))
    → ((t : Text) → length t < n → Ensures (Leaves (length t)) (ri t))
    → AheadWithin n a
    → Ensures (Leaves n) (next_item rv ri a)
next_item-Leaves n rv ri at_end hv hi w = tt
next_item-Leaves n rv ri (closed rest) hv hi w = w
next_item-Leaves n rv ri (more t) hv hi w =
    Ensures-bind (Leaves (length t)) (Leaves n) (rv t) _ (hv t w) λ (v, t') k.
      Leaves-map _ (length t') n (ri t') (omega (arith, k, w)) (hi t' (omega (arith, k, w)))

pub next_pair-Leaves :
    (n : ℕ) (rv : Text → Parsed (Value × Text)) (rp : Text → Parsed (Pairs × Text)) (a : Ahead)
    → ((t : Text) → length t ≤ n → Ensures (Leaves (length t)) (rv t))
    → ((t : Text) → length t < n → Ensures (Leaves (length t)) (rp t))
    → AheadWithin n a
    → Ensures (Leaves n) (next_pair rv rp a)
next_pair-Leaves n rv rp at_end hv hp w = tt
next_pair-Leaves n rv rp (closed rest) hv hp w = w
next_pair-Leaves n rv rp (more t) hv hp w =
    Ensures-bind (Leaves (length t)) (Leaves n) (rv t) _ (hv t w) λ (k, t') h.
      Ensures-bind (Leaves (length t')) (Leaves n) (rv t') _ (hv t' (omega (arith, h, w)))
        λ (v, t'') h'.
          Leaves-map _ (length t'') n (rp t'') (omega (arith, h, h', w))
            (hp t'' (omega (arith, h, h', w)))
