-- ===== src/Sim/Rng.antt =====
-- crates/propsim-sim/src/rng.rs: SplitMix64.
use Prim.Native.Nat.{bit_xor}
use propsim.Base.{ℕ, ◌+◌, ◌-◌, ◌*◌, ◌/◌, ◌%◌, ◌^◌, Bool, true, false, leb, if◌then◌else◌}
use propsim.Float64.{float_le, unit_lt, zero_float, one_float}

pub record SimRng : Type 0 where
  pub state : ℕ

abbrev pub u64_mod : ℕ
u64_mod = 2 ^ 64

unfoldable pub new : ℕ → SimRng
new seed = record { state = seed }

-- `wrapping_add` and `wrapping_mul` keep the low 64 bits.
unfoldable pub wrapping_add : ℕ → ℕ → ℕ
wrapping_add a b = (a + b) % u64_mod

unfoldable pub wrapping_mul : ℕ → ℕ → ℕ
wrapping_mul a b = (a * b) % u64_mod

abbrev xor_shift : ℕ → ℕ → ℕ
xor_shift z k = bit_xor z (z / 2 ^ k)

-- The output function of the generator.
unfoldable pub mix : ℕ → ℕ
mix s =
    let z = wrapping_mul (xor_shift s 30) 0xBF58_476D_1CE4_E5B9 in
    let w = wrapping_mul (xor_shift z 27) 0x94D0_49BB_1331_11EB in xor_shift w 31

unfoldable pub next : SimRng → ℕ × SimRng
next r =
    let state = wrapping_add r.state 0x9E37_79B9_7F4A_7C15 in (mix state, record { state = state })

-- True with probability `p`; no draw is made outside (0, 1).
unfoldable pub chance : SimRng → ℕ → Bool × SimRng
chance r p =
    if float_le p zero_float
    then (false, r)
    else if float_le one_float p
    then (true, r)
    else (let (n, r') = next r in (unit_lt (n / 2 ^ 11) p, r'))

-- A number in [lo, hi); `lo`, and no draw, if the range is empty.
unfoldable pub range_u64 : SimRng → ℕ → ℕ → ℕ × SimRng
range_u64 r lo hi =
    if leb hi lo then (lo, r) else (let (n, r') = next r in (lo + n % (hi - lo), r'))
