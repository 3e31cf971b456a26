-- ===== src/Numerals/Correct.antt =====
-- Numbers that are written are read back.
use native.Mathlib.Nat.{mod-lt, div-lt_self, div-add-mod'}
use propsim.Base.{
  ℕ, zero, suc, ◌+◌, ◌-◌, ◌*◌, ◌/◌, ◌%◌, ◌^◌, ◌≤◌, ◌<◌, ◌≡◌, refl, ap, ◌∙◌, sym, subst, inl, inr,
  true, false, Option, none, some, [], ◌∷◌, ◌++◌, Text, All, All-append, arith, ltb, leb, ◌==◌,
  Bool-cases, subst,
}
use propsim.History.Values.{ℤ, pos, negsuc}
use propsim.Numerals.{
  digit, show_loop, show_radix, show_int, digit_value, spell, spell_all, parse_i64,
}

digit_value-digit : (d : ℕ) → d < 36 → digit_value (digit d) ≡ d
unfolding digit digit_value
digit_value-digit d h = ground arith

abbrev then_spell : ℕ → Option ℕ → Text → Option ℕ
then_spell base none s = none
then_spell base (some n) s = spell base n s

spell-append :
    (base acc : ℕ) (s t : Text) → spell base acc (s ++ t) ≡ then_spell base (spell base acc s) t
unfolding spell
spell-append base acc [] t = refl
spell-append base acc (c ∷ cs) t = elim (Bool-cases (ltb (digit_value c) base)) [
  | inl good ↦ rw (good, spell) (spell-append base (acc * base + digit_value c) cs t)
  | inr bad ↦ rw (bad, spell) refl
]

spell-digit :
    (base acc d : ℕ) → d < base → base ≤ 36 → spell base acc (digit d ∷ []) ≡ some (acc * base + d)
unfolding spell
spell-digit base acc d h k =
    let e = digit_value-digit d (omega arith) in
    let t : ltb d base ≡ true = ground arith in
    let t' = ap (λ x. ltb x base) e ∙ t in rw (t', spell) (ap (λ x. some (acc * base + x)) e)

show_loop-spell :
    (fuel base n : ℕ)
    → 1 < base
    → base ≤ 36
    → n < fuel
    → spell base 0 (show_loop fuel base n) ≡ some n
unfolding show_loop
show_loop-spell zero base n h k l = absurd (omega arith)
show_loop-spell (suc fuel) base n h k l = elim (Bool-cases (ltb n base)) [
  | inl small ↦
      rw (small, show_loop) (spell-digit base 0 n (ground arith) k ∙ ap some (omega arith))
  | inr large ↦
      let positive : 0 < n = ground arith in
      let ih = show_loop-spell fuel base (n / base) h k (omega (arith, div-lt_self positive h)) in
      rw (large, show_loop)
        (spell-append base 0 (show_loop fuel base (n / base)) (digit (n % base) ∷ [])
          ∙ ap (λ o. then_spell base o (digit (n % base) ∷ [])) ih
          ∙ spell-digit base (n / base) (n % base) (mod-lt n (omega arith)) k
          ∙ ap some (div-add-mod' n base))
]

abbrev pub IsI64 : ℤ → Type 0
IsI64 (pos n) = n < 2 ^ 63
IsI64 (negsuc n) = n < 2 ^ 63

-- The characters that a number is written with.
abbrev pub IsDigit : ℕ → ℕ → Type 0
IsDigit base c = digit_value c < base

show_loop-IsDigit :
    (fuel base n : ℕ) → 1 < base → base ≤ 36 → All (IsDigit base) (show_loop fuel base n)
unfolding show_loop
show_loop-IsDigit zero base n h k = tt
show_loop-IsDigit (suc fuel) base n h k = elim (Bool-cases (ltb n base)) [
  | inl small ↦
      let below : n < base = ground arith in
      let e = digit_value-digit n (omega arith) in rw (small, show_loop) (omega (arith, e), tt)
  | inr large ↦
      let below : n % base < base = mod-lt n (omega arith) in
      let e = digit_value-digit (n % base) (omega arith) in
      rw (large, show_loop)
        (All-append (IsDigit base) (show_loop fuel base (n / base)) (digit (n % base) ∷ [])
          (show_loop-IsDigit fuel base (n / base) h k) (omega (arith, e), tt))
]

pub show_radix-spell :
    (base n : ℕ) → 1 < base → base ≤ 36 → spell base 0 (show_radix base n) ≡ some n
unfolding show_radix
show_radix-spell base n h k = show_loop-spell (suc n) base n h k (omega arith)

pub show_radix-IsDigit :
    (base n : ℕ) → 1 < base → base ≤ 36 → All (IsDigit base) (show_radix base n)
unfolding show_radix
show_radix-IsDigit base n h k = show_loop-IsDigit (suc n) base n h k

append_cons : (xs : Text) (c : ℕ) → (d : ℕ) × (ds : Text) × (xs ++ c ∷ [] ≡ d ∷ ds)
append_cons [] c = (c, [], refl)
append_cons (x ∷ xs) c = (x, xs ++ c ∷ [], refl)

pub show_radix-cons : (base n : ℕ) → (d : ℕ) × (ds : Text) × (show_radix base n ≡ d ∷ ds)
unfolding show_radix show_loop
show_radix-cons base n = elim (Bool-cases (ltb n base)) [
  | inl small ↦ (digit n, [], rw (small, show_loop) refl)
  | inr large ↦
      let (d, ds, e) = append_cons (show_loop n base (n / base)) (digit (n % base)) in
      (d, ds, rw (large, show_loop) e)
]

-- What spells a number is no sign.
pub spell_all-show :
    (base n : ℕ) → 1 < base → base ≤ 36 → spell_all base (show_radix base n) ≡ some n
unfolding spell_all
spell_all-show base n h k =
    let (d, ds, e) = show_radix-cons base n in
    rw e (ap (λ s. spell base 0 s) (sym e) ∙ show_radix-spell base n h k)

not_sign : (d : ℕ) → IsDigit 10 d → (d == b'-') ≡ false
unfolding digit_value
not_sign d h = ground arith

not_sign' : (d : ℕ) → IsDigit 10 d → (d == b'+') ≡ false
unfolding digit_value
not_sign' d h = ground arith

-- Every i64 that is written in decimal is read back.
pub parse_i64-show_int : (i : ℤ) → IsI64 i → parse_i64 (show_int i) ≡ some i
unfolding parse_i64 show_int
parse_i64-show_int (pos n) h =
    let (d, ds, e) = show_radix-cons 10 n in
    let all = subst (All (IsDigit 10)) e (show_radix-IsDigit 10 n (omega arith) (omega arith)) in
    let spelt = ap (spell_all 10) (sym e) ∙ spell_all-show 10 n (omega arith) (omega arith) in
    let unsigned : (d == b'-') ≡ false = not_sign d all.0 in
    let unsigned' : (d == b'+') ≡ false = not_sign' d all.0 in
    let fits : leb n (2 ^ 63 - 1) ≡ true = ground arith in
    rw (e, parse_i64, unsigned, unsigned', spelt, fits) refl
parse_i64-show_int (negsuc n) h =
    let spelt = spell_all-show 10 (suc n) (omega arith) (omega arith) in
    let fits : leb (suc n) (2 ^ 63) ≡ true = ground arith in rw (spelt, fits) refl
