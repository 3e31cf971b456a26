-- ===== src/Oracle/Model.antt =====
-- crates/propsim-oracle/src/model.rs: the trait `SequentialModel` as a record of its operations.
use propsim.Base.{Bool, true, ◌≡◌, ◌↔◌, Option, Text}
use propsim.History.Values.{Value}

-- A `Response` wraps a value.
abbrev pub Response : Type 0
Response = Value

-- `state_eq` is the `Eq` that the trait asks of `State`, with the law of `Eq`.
pub record SequentialModel : Type 1 where
  pub State : Type 0
  pub Op : Type 0
  pub init : State
  pub step : State → Op → State × Response
  pub decode : Text → Value → Value → Option (Op × Response)
  pub state_eq : State → State → Bool
  pub state_eq_iff : (a b : State) → (state_eq a b ≡ true) ↔ (a ≡ b)
