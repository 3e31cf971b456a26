-- ===== src/History/Json/Numbers.antt =====
-- Numbers are read back from JSON.
use propsim.Base.{
  ℕ, suc, ◌≡◌, refl, ap, ◌∙◌, sym, subst, arith, true, false, Text, [], ◌∷◌, ◌++◌, All,
}
use propsim.Numerals.{show_int, parse_i64}
use propsim.Numerals.Correct.{IsI64, parse_i64-show_int}
use propsim.History.Values.{Value, ℤ, int, float}
use propsim.History.Parsed.{ok}
use propsim.History.Edn.{FloatText, is_space, contains}
use propsim.History.Edn.Numbers.{
  IsPlain, IsFloatOf, parse_i64-point, show_int-IsPlain, show_int-cons,
}
use propsim.History.Json.Read.{
  is_number_char, take_number, int_or_float, parse_number, skip_ws, lead, opens_number, parse_value,
}

-- The text does not go on with a number.

abbrev pub EndsNumber : Text → Type 0
EndsNumber [] = Unit
EndsNumber (c ∷ s) = is_number_char c ≡ false

take_number-append :
    (tok rest : Text) → All IsPlain tok → EndsNumber rest → take_number (tok ++ rest) ≡ (tok, rest)
unfolding take_number is_number_char
take_number-append [] [] h e = refl
take_number-append [] (c ∷ s) h e = rw (take_number, e) refl
take_number-append (c ∷ cs) rest h e =
    let here : is_number_char c ≡ true = ground (arith, h.0) in
    rw (take_number, here, take_number-append cs rest h.1 e) refl

plain-skip_ws : (c : ℕ) (s : Text) → IsPlain c → skip_ws (c ∷ s) ≡ c ∷ s
unfolding skip_ws is_space
plain-skip_ws c s h = ground arith

plain-lead : (c : ℕ) (s : Text) → IsPlain c → lead (c ∷ s) ≡ opens_number (c ∷ s)
unfolding lead
plain-lead c s h = ground arith

module _ (F : FloatText) where
  parse_value-number :
      (fuel c : ℕ) (cs rest : Text) (v : Value)
      → All IsPlain (c ∷ cs)
      → EndsNumber rest
      → int_or_float F (c ∷ cs) (parse_i64 (c ∷ cs)) ≡ ok v
      → parse_value F (suc fuel) (c ∷ cs ++ rest) ≡ ok (v, rest)
  unfolding parse_value parse_number
  parse_value-number fuel c cs rest v h e k =
      rw
        (
          plain-skip_ws c (cs ++ rest) h.0,
          plain-lead c (cs ++ rest) h.0,
          take_number-append (c ∷ cs) rest h e,
          k,
        )
        refl

  -- An i64 is read back from its text, whatever follows that is no part of a number.
  pub parse_value-int :
      (fuel : ℕ) (i : ℤ) (rest : Text)
      → IsI64 i
      → EndsNumber rest
      → parse_value F (suc fuel) (show_int i ++ rest) ≡ ok (int i, rest)
  parse_value-int fuel i rest h k =
      let (c, cs, e) = show_int-cons i in
      let plain = subst (All IsPlain) e (show_int-IsPlain i) in
      let read = ap parse_i64 (sym e) ∙ parse_i64-show_int i h in
      rw e (parse_value-number fuel c cs rest (int i) plain k (ap (int_or_float F (c ∷ cs)) read))

  -- A float is read back from its text, whatever follows that is no part of a number.
  pub parse_value-float :
      (fuel f : ℕ) (s rest : Text)
      → IsFloatOf F f s
      → EndsNumber rest
      → parse_value F (suc fuel) (s ++ rest) ≡ ok (float f, rest)
  unfolding contains
  parse_value-float fuel f [] rest (h, k, p) e = absurd (cc)
  parse_value-float fuel f (c ∷ cs) rest (h, k, p) e =
      parse_value-number fuel c cs rest (float f) h e (rw (parse_i64-point (c ∷ cs) k, p) refl)
