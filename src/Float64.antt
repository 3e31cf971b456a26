-- ===== src/Float64.antt =====
-- The f64 operations that the simulator uses. An f64 is its 64-bit pattern: a sign bit, 11 bits
-- of exponent and 52 of fraction.
use propsim.Base.{
  ℕ, ◌*◌, ◌/◌, ◌%◌, ◌+◌, ◌^◌, max, Bool, not, ◌&&◌, ◌||◌, ltb, leb, ◌==◌, if◌then◌else◌,
}

abbrev magnitude : ℕ → ℕ
magnitude x = x % 2 ^ 63

abbrev is_negative : ℕ → Bool
is_negative x = leb (2 ^ 63) x

unfoldable pub is_nan : ℕ → Bool
is_nan x = ltb (2047 * 2 ^ 52) (magnitude x)

abbrev are_zero : ℕ → ℕ → Bool
are_zero x y = magnitude x == 0 && magnitude y == 0

unfoldable pub is_finite : ℕ → Bool
is_finite x = ltb (magnitude x) (2047 * 2 ^ 52)

-- `==`: no NaN equals anything, and the two zeros are equal.
unfoldable pub float_eq : ℕ → ℕ → Bool
unfolding is_nan
float_eq x y = not (is_nan x) && not (is_nan y) && (x == y || are_zero x y)

-- `<`: false at a NaN.
unfoldable pub float_lt : ℕ → ℕ → Bool
unfolding is_nan
float_lt x y =
    not (is_nan x)
    && not (is_nan y)
    && not (are_zero x y)
    && (if is_negative x
        then not (is_negative y) || ltb (magnitude y) (magnitude x)
        else not (is_negative y) && ltb (magnitude x) (magnitude y))

-- `<=`.
unfoldable pub float_le : ℕ → ℕ → Bool
unfolding float_lt float_eq
float_le x y = float_lt x y || float_eq x y

-- 0.0, 1.0, 0.5, 0.02 and 0.01.
abbrev pub zero_float : ℕ
zero_float = 0

abbrev pub one_float : ℕ
one_float = 0x3FF0_0000_0000_0000

abbrev pub half_float : ℕ
half_float = 0x3FE0_0000_0000_0000

-- The fraction with the leading bit of a normal number.
abbrev significand : ℕ → ℕ
significand p = if p / 2 ^ 52 == 0 then p % 2 ^ 52 else 2 ^ 52 + p % 2 ^ 52

-- k / 2^53 < p, for k below 2^53 and a p that is positive and finite: both sides are taken
-- times 2^1075, and the quotient is exact in an f64.
unfoldable pub unit_lt : ℕ → ℕ → Bool
unfolding is_nan
unit_lt k p = not (is_nan p) && ltb (k * 2 ^ 1022) (significand p * 2 ^ max (p / 2 ^ 52) 1)

-- `p.clamp(0.0, 1.0)`, which keeps a NaN.
unfoldable pub clamp_unit : ℕ → ℕ
unfolding float_lt
clamp_unit p =
    if float_lt p zero_float then zero_float else if float_lt one_float p then one_float else p
