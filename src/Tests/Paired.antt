-- ===== src/Tests/Paired.antt =====
-- The run on the two-node counter, paired for a model of the counter.
use propsim.Base.{ℕ, ◌+◌, ◌==◌, ==_iff, Option, none, some, Text, text_eq, if◌then◌else◌}
use propsim.History.Values.{Value, pos}
use propsim.Oracle.Model.{SequentialModel}
use propsim.Tests.Run.{add, int}

-- A model of the counter: it decodes the sums that were asked for, and no other function.
abbrev decode_sum : Text → Value → Value → Option (ℕ × Value)
decode_sum f (Value.int (pos n)) answer = if text_eq f add then some (n, answer) else none
decode_sum f Value.nil answer = if text_eq f add then some (0, answer) else none
decode_sum f _ answer = none

abbrev sums : SequentialModel
sums = record {
  State = ℕ;
  Op = ℕ;
  init = 0;
  step = λ s n. (s + n, int (s + n));
  decode = decode_sum;
  state_eq = λ a b. a == b;
  state_eq_iff = ==_iff;
}

abbrev IsAmount : Value → Type 0
IsAmount (Value.int (pos n)) = Unit
IsAmount Value.nil = Unit
IsAmount _ = ⊥
