-- ===== src/History/Edn/Numbers.antt =====
-- Numbers are read back as they were written.
use propsim.Base.{
  ltb, ==_iff, ◌*◌, ◌+◌, ℕ, suc, ◌≡◌, refl, ap, ◌∙◌, sym, subst, inl, inr, Bool-cases, arith, Bool,
  true, false, ◌==◌, leb, Text, [], ◌∷◌, ◌++◌, All, All-append, All-map, codes, text_eq, ◌||◌, ◌&&◌,
  none, some,
}
use propsim.Float64.{is_finite}
use propsim.Numerals.{parse_i64, show_int, show_radix, spell, spell_all, digit_value}
use propsim.Numerals.Correct.{
  IsI64, parse_i64-show_int, show_radix-IsDigit, show_radix-cons, IsDigit,
}
use propsim.History.Values.{ℤ, pos, negsuc, int, float}
use propsim.History.Parsed.{ok}
use propsim.History.Edn.{FloatText, is_delim, is_space, contains, fmt_float}
use propsim.History.Edn.Read.{skips, atom_value, int_or_float, trim_suffix, parse_value}
use propsim.History.Edn.Tokens.{starts, StartsValue, IsTokenChar, Ends, parse_value-token}

-- The characters of numbers.

abbrev pub is_plain : ℕ → Bool
is_plain c = leb 48 c && leb c 57 || c == b'-' || c == b'.'

abbrev pub IsPlain : ℕ → Type 0
IsPlain c = is_plain c ≡ true

-- Rust's f64 in decimal: a finite float is written with digits, a sign and a point alone, and so
-- that it is read back, also with a fraction of 0 where it has none. The empty text is refused.
pub record IsFloatText (F : FloatText) : Type 0 where
  pub display-IsPlain : (x : ℕ) → is_finite x ≡ true → All IsPlain (FloatText.display F x)
  pub parse-display :
      (x : ℕ) → is_finite x ≡ true → FloatText.parse F (FloatText.display F x) ≡ some x
  pub parse-point :
      (x : ℕ)
      → is_finite x ≡ true
      → contains b'.' (FloatText.display F x) ≡ false
      → FloatText.parse F (FloatText.display F x ++ codes ".0") ≡ some x
  pub parse-empty : FloatText.parse F [] ≡ none

IsPlain-IsTokenChar : (c : ℕ) → IsPlain c → IsTokenChar c
unfolding is_delim is_space
IsPlain-IsTokenChar c h = ground arith

plain_not_colon : (c : ℕ) → IsPlain c → (c == b':') ≡ false
plain_not_colon c h = ground arith

IsDigit-IsPlain : (c : ℕ) → IsDigit 10 c → IsPlain c
unfolding digit_value
IsDigit-IsPlain c h = ground arith

pub digits : (n : ℕ) → All IsPlain (show_radix 10 n)
digits n =
    All-map (IsDigit 10) IsPlain (show_radix 10 n) IsDigit-IsPlain
      (show_radix-IsDigit 10 n (omega arith) (omega arith))

pub show_int-IsPlain : (i : ℤ) → All IsPlain (show_int i)
unfolding show_int
show_int-IsPlain (pos n) = digits n
show_int-IsPlain (negsuc n) = (refl, digits (suc n))

pub show_int-cons : (i : ℤ) → (c : ℕ) × (cs : Text) × (show_int i ≡ c ∷ cs)
unfolding show_int
show_int-cons (pos n) = show_radix-cons 10 n
show_int-cons (negsuc n) = (b'-', _, refl)

trim_suffix-plain : (s : Text) → All IsPlain s → trim_suffix s ≡ s
unfolding trim_suffix
trim_suffix-plain [] h = refl
trim_suffix-plain (c ∷ []) h = ground arith
trim_suffix-plain (c ∷ d ∷ s) h = rw (trim_suffix, trim_suffix-plain (d ∷ s) h.1) refl

pub fmt_float-nil : (F : FloatText) (f : ℕ) → is_finite f ≡ false → fmt_float F f ≡ codes "nil"
unfolding fmt_float
fmt_float-nil F f h = rw h refl

-- A text with a point spells no integer.
spell-point : (acc : ℕ) (s : Text) → contains b'.' s ≡ true → spell 10 acc s ≡ none
unfolding spell contains digit_value
spell-point acc [] h = cc
spell-point acc (c ∷ s) h = elim (Bool-cases (c == b'.')) [
  | inl e ↦ rw ((==_iff c b'.').0 e) refl
  | inr e ↦
      let more : contains b'.' s ≡ true = ground (arith, h, e) in
      elim (Bool-cases (ltb (digit_value c) 10)) [
        | inl l ↦ rw (spell, l) (spell-point (acc * 10 + digit_value c) s more)
        | inr l ↦ rw (spell, l) refl
      ]
]

spell_all-point : (s : Text) → contains b'.' s ≡ true → spell_all 10 s ≡ none
unfolding spell_all
spell_all-point [] h = refl
spell_all-point (c ∷ s) h = spell-point 0 (c ∷ s) h

pub parse_i64-point : (s : Text) → contains b'.' s ≡ true → parse_i64 s ≡ none
unfolding parse_i64 contains
parse_i64-point [] h = refl
parse_i64-point (c ∷ s) h = elim (Bool-cases (c == b'-')) [
  | inl e ↦
      let more : contains b'.' s ≡ true = ground (arith, h, e) in
      rw (parse_i64, e, spell_all-point s more) refl
  | inr e ↦ elim (Bool-cases (c == b'+')) [
    | inl p ↦
        let more : contains b'.' s ≡ true = ground (arith, h, p) in
        rw (parse_i64, e, p, spell_all-point s more) refl
    | inr p ↦ rw (parse_i64, e, p, spell_all-point (c ∷ s) h) refl
  ]
]

plain-starts : (c : ℕ) → IsPlain c → starts c ≡ true
unfolding skips is_space
plain-starts c h = ground arith

pub show_int-StartsValue : (i : ℤ) → StartsValue (show_int i)
show_int-StartsValue i =
    let (c, cs, e) = show_int-cons i in
    let plain = subst (All IsPlain) e (show_int-IsPlain i) in rw e (plain-starts c plain.0)

plain-StartsValue :
    (F : FloatText) (x : ℕ) (s : Text)
    → FloatText.parse F [] ≡ none
    → FloatText.parse F s ≡ some x
    → All IsPlain s
    → StartsValue s
plain-StartsValue F x [] e p h = absurd (cc)
plain-StartsValue F x (c ∷ cs) e p h = plain-starts c h.0

module _ (F : FloatText) where
  atom_value-plain :
      (c : ℕ) (cs : Text)
      → IsPlain c
      → atom_value F (c ∷ cs) ≡ int_or_float F (c ∷ cs) (parse_i64 (c ∷ cs))
  unfolding atom_value text_eq
  atom_value-plain c cs h =
      let n : (c == b'n') ≡ false = ground arith in
      let t : (c == b't') ≡ false = ground arith in
      let f : (c == b'f') ≡ false = ground arith in rw (n, t, f) refl

  -- An i64 is read back from its text, whatever delimiter follows.
  pub parse_value-int :
      (fuel : ℕ) (i : ℤ) (rest : Text)
      → IsI64 i
      → Ends rest
      → parse_value F (suc fuel) (show_int i ++ rest) ≡ ok (int i, rest)
  parse_value-int fuel i rest h k =
      let (c, cs, e) = show_int-cons i in
      let plain = subst (All IsPlain) e (show_int-IsPlain i) in
      let read = ap parse_i64 (sym e) ∙ parse_i64-show_int i h in
      let value = atom_value-plain c cs plain.0 ∙ ap (int_or_float F (c ∷ cs)) read in
      rw e (
        parse_value-token F fuel c cs rest (int i)
          (All-map IsPlain IsTokenChar (c ∷ cs) IsPlain-IsTokenChar plain)
          (plain_not_colon c plain.0) k value)

  -- A text of a float that has a point.
  parse_value-pointed :
      (fuel f : ℕ) (s rest : Text)
      → All IsPlain s
      → contains b'.' s ≡ true
      → FloatText.parse F s ≡ some f
      → Ends rest
      → parse_value F (suc fuel) (s ++ rest) ≡ ok (float f, rest)
  unfolding contains
  parse_value-pointed fuel f [] rest h k p e = absurd (cc)
  parse_value-pointed fuel f (c ∷ cs) rest h k p e =
      let value : atom_value F (c ∷ cs) ≡ ok (float f) =
        atom_value-plain c cs h.0
        ∙ (rw (parse_i64-point (c ∷ cs) k, trim_suffix-plain (c ∷ cs) h, p) refl) in
      parse_value-token F fuel c cs rest (float f)
        (All-map IsPlain IsTokenChar (c ∷ cs) IsPlain-IsTokenChar h) (plain_not_colon c h.0) e value

plain_without : (d : ℕ) (s : Text) → is_plain d ≡ false → All IsPlain s → contains d s ≡ false
unfolding contains
plain_without d [] n h = refl
plain_without d (c ∷ cs) n h = ground (arith, plain_without d cs n h.1)

contains-append : (s t : Text) → contains b'.' t ≡ true → contains b'.' (s ++ t) ≡ true
unfolding contains
contains-append [] t h = h
contains-append (c ∷ cs) t h = ground (arith, contains-append cs t h)

-- The text of a finite float: it has a point, and it is read back.
abbrev pub IsFloatOf : FloatText → ℕ → Text → Type 0
IsFloatOf F f s = All IsPlain s × (contains b'.' s ≡ true) × (FloatText.parse F s ≡ some f)

module _ (F : FloatText) (L : IsFloatText F) where
  pub fmt_float-IsFloatOf : (f : ℕ) → is_finite f ≡ true → IsFloatOf F f (fmt_float F f)
  unfolding fmt_float contains
  fmt_float-IsFloatOf f h =
      let s = FloatText.display F f in
      let plain = IsFloatText.display-IsPlain L f h in
      let no_e = plain_without b'e' s refl plain in
      let no_e' = plain_without b'E' s refl plain in
      elim (Bool-cases (contains b'.' s)) [
        | inl point ↦ rw (h, point) (plain, point, IsFloatText.parse-display L f h)
        | inr point ↦
            rw (h, point, no_e, no_e')
              (
                All-append IsPlain s (codes ".0") plain (refl, (refl, tt)),
                contains-append s (codes ".0") refl,
                IsFloatText.parse-point L f h point,
              )
      ]

  -- A finite float is read back from its text, whatever delimiter follows.
  pub parse_value-float :
      (fuel f : ℕ) (rest : Text)
      → is_finite f ≡ true
      → Ends rest
      → parse_value F (suc fuel) (fmt_float F f ++ rest) ≡ ok (float f, rest)
  parse_value-float fuel f rest h k =
      let (plain, point, read) = fmt_float-IsFloatOf f h in
      parse_value-pointed F fuel f (fmt_float F f) rest plain point read k

  finite_starts : (f : ℕ) → is_finite f ≡ true → StartsValue (fmt_float F f)
  finite_starts f h =
      let (plain, point, read) = fmt_float-IsFloatOf f h in
      plain-StartsValue F f (fmt_float F f) (IsFloatText.parse-empty L) read plain

  pub fmt_float-StartsValue : (f : ℕ) → StartsValue (fmt_float F f)
  unfolding skips is_space
  fmt_float-StartsValue f = elim (Bool-cases (is_finite f)) [
    | inl h ↦ finite_starts f h
    | inr h ↦ rw (fmt_float-nil F f h) refl
  ]
