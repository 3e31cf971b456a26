-- ===== src/Tests/Oracle.antt =====
-- The oracle on a register: crates/propsim-oracle/src/linearizability.rs at work.
use propsim.Base.{
  ℕ, ◌==◌, ==_iff, ◌≡◌, refl, ◌↔◌, ◌≤◌, true, false, Option, none, some, [], ◌∷◌, Text, length,
  arith, text_eq, if◌then◌else◌,
}
use propsim.History.{OpKind, OpEntry, History, virtual_nanos}
use propsim.History.Values.{Value, pos, value_eq, int_eq}
use propsim.Oracle.Model.{SequentialModel}
use propsim.Oracle.Linearizability.{
  Span, remove_open, bools_eq, min_finish, close_span, pair_spans, parse_spans, seen, attempt,
  recurse, search, check_valid, usize_max,
}
use propsim.Oracle.Linearizability.Spec.{Linearizable}
use propsim.Core.Oracle.{RunOutput, plain_output, pass}
use propsim.Oracle.Linearizability.Check.{check, refusal}
use propsim.Oracle.Linearizability.Weaker.{check-weaker}
use propsim.Oracle.Linearizability.Pairing.{check_decides}

program : Unit {0}
unfolding remove_open bools_eq min_finish close_span pair_spans parse_spans seen attempt recurse
    search check_valid text_eq value_eq int_eq virtual_nanos
program = tt

-- "w" and "r".
abbrev write : Text
write = 119 ∷ []

abbrev read : Text
read = 114 ∷ []

abbrev int : ℕ → Value
int n = Value.int (pos n)

-- A write asks with its number, a read answers with the number it saw.
abbrev decode_register : Text → Value → Value → Option (Option ℕ × Value)
decode_register f (Value.int (pos n)) resp = if text_eq f write then some (some n, resp) else none
decode_register f Value.nil resp = if text_eq f read then some (none, resp) else none
decode_register f _ resp = none

abbrev step_register : ℕ → Option ℕ → ℕ × Value
step_register s none = (s, int s)
step_register s (some n) = (n, Value.nil)

abbrev register : SequentialModel
register = record {
  State = ℕ;
  Op = Option ℕ;
  init = 0;
  step = step_register;
  decode = decode_register;
  state_eq = λ a b. a == b;
  state_eq_iff = ==_iff;
}

abbrev entry : ℕ → OpKind → ℕ → Text → Value → OpEntry
entry i kind p f v = record {
  index = i;
  time = virtual_nanos (pos i);
  kind = kind;
  process = p;
  f = f;
  value = v;
}

-- Process 1 reads the old value while process 0 writes.
abbrev overlapping : History
overlapping =
    entry 0 OpKind.invoke 0 write (int 5)
    ∷ entry 1 OpKind.invoke 1 read Value.nil
    ∷ entry 2 OpKind.ok 1 read (int 0)
    ∷ entry 3 OpKind.ok 0 write Value.nil
    ∷ []

-- Process 1 reads the old value after the write of process 0.
abbrev stale : History
stale =
    entry 0 OpKind.invoke 0 write (int 5)
    ∷ entry 1 OpKind.ok 0 write Value.nil
    ∷ entry 2 OpKind.invoke 1 read Value.nil
    ∷ entry 3 OpKind.ok 1 read (int 0)
    ∷ []

verdicts :
    (check_valid register true overlapping ≡ true)
    × (check_valid register true stale ≡ false)
    × (check_valid register false stale ≡ true)
unfolding program
verdicts = (refl, refl, refl)

small : length stale ≤ usize_max
small = omega arith

abbrev first_span : Span (Option ℕ)
first_span = record { op = some 5; response = Value.nil; start = 0; finish = 1 }

check_decides_example :
    (check_valid register true stale ≡ true)
    ↔ Linearizable register true (parse_spans register stale)
check_decides_example = check_decides register true stale small

abbrev output : RunOutput
output = plain_output overlapping 7

accepted : (check register true output).valid ≡ true
unfolding program check pass
accepted = refl

check-weaker_example : (check register false output).valid ≡ true
check-weaker_example = check-weaker register output (omega arith) accepted

abbrev stale_output : RunOutput
stale_output = plain_output stale 7

refused : check register true stale_output ≡ refusal true 2
unfolding program check
refused = refl
