-- ===== src/History/Values.antt =====
-- The payloads of crates/propsim-history/src/op.rs. An f64 is its 64-bit pattern.
use propsim.Float64.{float_eq}
use propsim.Base.{ℕ, Bool, true, false, not, ◌&&◌, Text, text_eq, ◌==◌}

-- `negsuc n` is -(n + 1). An i64 is kept in range by whoever makes one.

pub data ℤ : Type 0 where
  pos : ℕ → ℤ
  negsuc : ℕ → ℤ

unfoldable pub int_eq : ℤ → ℤ → Bool
int_eq (pos a) (pos b) = a == b
int_eq (pos a) (negsuc b) = false
int_eq (negsuc a) (pos b) = false
int_eq (negsuc a) (negsuc b) = a == b

mutual
  pub data Value : Type 0 where
    nil : Value
    bool : Bool → Value
    int : ℤ → Value
    float : ℕ → Value
    str : Text → Value
    keyword : Text → Value
    list : Values → Value
    map : Pairs → Value

  pub data Values : Type 0 where
    empty : Values
    cons : Value → Values → Values

  pub data Pairs : Type 0 where
    end : Pairs
    pair : Value → Value → Pairs → Pairs

abbrev bool_eq : Bool → Bool → Bool
bool_eq true b = b
bool_eq false b = not b

-- The derived `PartialEq`.
unfoldable mutual
  pub value_eq : Value → Value → Bool
  value_eq nil nil = true
  value_eq (bool a) (bool b) = bool_eq a b
  value_eq (int a) (int b) = int_eq a b
  value_eq (float a) (float b) = float_eq a b
  value_eq (str a) (str b) = text_eq a b
  value_eq (keyword a) (keyword b) = text_eq a b
  value_eq (list a) (list b) = values_eq a b
  value_eq (map a) (map b) = pairs_eq a b
  value_eq _ _ = false

  pub values_eq : Values → Values → Bool
  values_eq empty empty = true
  values_eq (cons a as') (cons b bs) = value_eq a b && values_eq as' bs
  values_eq _ _ = false

  pub pairs_eq : Pairs → Pairs → Bool
  pairs_eq end end = true
  pairs_eq (pair k v ps) (pair l w qs) = value_eq k l && value_eq v w && pairs_eq ps qs
  pairs_eq _ _ = false
