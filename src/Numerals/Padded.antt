-- ===== src/Numerals/Padded.antt =====
-- `{:016x}` has a fixed width, and is read back.
use native.Mathlib.Nat.{pow-suc, pow-zero, div-lt_iff_lt-mul}
use propsim.Base.{
  length-append, length-replicate, ℕ, zero, suc, ◌+◌, ◌-◌, ◌*◌, ◌/◌, ◌%◌, ◌^◌, ◌≤◌, ◌<◌, ◌≡◌, refl,
  ◌∙◌, inl, inr, true, false, some, [], ◌∷◌, ◌++◌, Text, All, All-append, arith, ltb, leb, ◌==◌,
  Bool-cases, length, replicate,
}
use propsim.Numerals.{
  digit, show_loop, show_radix, padded_hex, digit_value, spell, spell_all, parse_u64,
}
use propsim.Numerals.Correct.{IsDigit, show_radix-IsDigit, show_radix-spell}

-- A number below base^(k + 1) has at most k + 1 digits.

length-show_loop :
    (fuel base n k : ℕ) → 1 < base → n < base ^ suc k → length (show_loop fuel base n) ≤ suc k
unfolding show_loop
length-show_loop zero base n k h l = omega arith
length-show_loop (suc fuel) base n zero h l =
    let small : ltb n base ≡ true = ground (arith, l, pow-suc base 0, pow-zero base) in
    rw (small, show_loop) (omega arith)
length-show_loop (suc fuel) base n (suc k) h l = elim (Bool-cases (ltb n base)) [
  | inl small ↦ rw (small, show_loop) (omega arith)
  | inr large ↦
      let ih =
        length-show_loop fuel base (n / base) k h
          ((div-lt_iff_lt-mul (omega arith)).1 (omega (arith, l, pow-suc base (suc k)))) in
      rw (large, show_loop)
        (omega (arith, ih, length-append (show_loop fuel base (n / base)) (digit (n % base) ∷ [])))
]

spell-zeros :
    (base k : ℕ) (s : Text) → 1 < base → spell base 0 (replicate k b'0' ++ s) ≡ spell base 0 s
unfolding spell digit_value
spell-zeros base zero s h = refl
spell-zeros base (suc k) s h =
    let small : ltb 0 base ≡ true = ground arith in
    let e : 0 * base + 0 ≡ 0 = omega arith in rw (small, spell) (rw e (spell-zeros base k s h))

zeros : (k : ℕ) → All (IsDigit 16) (replicate k b'0')
unfolding digit_value
zeros zero = tt
zeros (suc k) = (omega arith, zeros k)

-- The hexadecimal digits of a u64, 16 of them with the zeros in front, are read back.
pub padded_hex-IsDigit : (n : ℕ) → All (IsDigit 16) (padded_hex n)
unfolding padded_hex
padded_hex-IsDigit n =
    All-append (IsDigit 16) (replicate (16 - length (show_radix 16 n)) b'0') (show_radix 16 n)
      (zeros (16 - length (show_radix 16 n))) (show_radix-IsDigit 16 n (omega arith) (omega arith))

pub length-padded_hex : (n : ℕ) → n < 2 ^ 64 → length (padded_hex n) ≡ 16
unfolding padded_hex show_radix
length-padded_hex n h =
    let short = length-show_loop (suc n) 16 n 15 (omega arith) h in
    omega (
      arith,
      short,
      length-append (replicate (16 - length (show_radix 16 n)) b'0') (show_radix 16 n),
      length-replicate {A = ℕ} (16 - length (show_radix 16 n)) b'0',
    )

not_plus : (c : ℕ) → IsDigit 16 c → (c == b'+') ≡ false
unfolding digit_value
not_plus c h = ground arith

parse_u64-digits :
    (s : Text) (n : ℕ)
    → All (IsDigit 16) s
    → 0 < length s
    → spell 16 0 s ≡ some n
    → n < 2 ^ 64
    → parse_u64 16 s ≡ some n
unfolding parse_u64 spell_all
parse_u64-digits [] n h l e k = absurd (omega arith)
parse_u64-digits (c ∷ cs) n h l e k =
    let fits : leb n (2 ^ 64 - 1) ≡ true = ground arith in rw (not_plus c h.0, e, fits) refl

pub parse_u64-padded_hex : (n : ℕ) → n < 2 ^ 64 → parse_u64 16 (padded_hex n) ≡ some n
unfolding padded_hex
parse_u64-padded_hex n h =
    let zero_count = 16 - length (show_radix 16 n) in
    let spelt =
      spell-zeros 16 zero_count (show_radix 16 n) (omega arith)
      ∙ show_radix-spell 16 n (omega arith) (omega arith) in
    parse_u64-digits (padded_hex n) n (padded_hex-IsDigit n) (omega (arith, length-padded_hex n h))
      spelt h
