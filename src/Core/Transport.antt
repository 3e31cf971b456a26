-- ===== src/Core/Transport.antt =====
-- crates/propsim-core/src/transport.rs. A `Prob` is the f64 that it wraps.
use propsim.Base.{ℕ, Bool, true, false}
use propsim.Float64.{clamp_unit, zero_float, one_float}

abbrev pub Prob : Type 0
Prob = ℕ

unfoldable pub prob : ℕ → Prob
unfolding clamp_unit
prob p = clamp_unit p

abbrev pub never : Prob
never = zero_float

abbrev pub always : Prob
always = one_float

pub record NetworkModel : Type 0 where
  pub delay_start : ℕ
  pub delay_end : ℕ
  pub loss : Prob
  pub duplicate : Prob
  pub ordered : Bool

unfoldable pub ordered_reliable : NetworkModel
ordered_reliable = record {
  delay_start = 0;
  delay_end = 0;
  loss = never;
  duplicate = never;
  ordered = true;
}

-- `InMemory::unordered_lossy`, with the bits of 0.02 and 0.01.
unfoldable pub unordered_lossy : NetworkModel
unfolding prob
unordered_lossy = record {
  delay_start = 0;
  delay_end = 50;
  loss = prob 0x3F94_7AE1_47AE_147B;
  duplicate = prob 0x3F84_7AE1_47AE_147B;
  ordered = false;
}
