-- ===== src/History.antt =====
-- crates/propsim-history/src/op.rs, time.rs and the type of history.rs: the data that every
-- executor records and every oracle reads.
pub mod Values
pub mod Parsed
pub mod Edn
pub mod Json
pub mod Codec
use propsim.Base.{
  ℕ, Bool, true, false, ◌≡◌, Text, Option, none, some, List, text_eq, ◌==◌, ◌&&◌, codes,
  if◌then◌else◌,
}
use Values.{Value, ℤ, int_eq, value_eq}

-- `ProcessId` wraps a u64, `Function` a keyword's text.
abbrev pub ProcessId : Type 0
ProcessId = ℕ

abbrev pub Function : Type 0
Function = Text

pub data OpKind : Type 0 where
  invoke ok fail info : OpKind

-- `OpKind::keyword` and `from_keyword`.
unfoldable pub kind_keyword : OpKind → Text
kind_keyword invoke = codes "invoke"
kind_keyword ok = codes "ok"
kind_keyword fail = codes "fail"
kind_keyword info = codes "info"

unfoldable pub from_keyword : Text → Option OpKind
from_keyword s =
    if text_eq s (codes "invoke")
    then some invoke
    else if text_eq s (codes "ok")
    then some ok
    else if text_eq s (codes "fail")
    then some fail
    else if text_eq s (codes "info")
    then some info
    else none

abbrev pub is_invoke : OpKind → Bool
is_invoke invoke = true
is_invoke _ = false

pub data Clock : Type 0 where
  virtual wall : Clock

pub record Time : Type 0 where
  pub nanos : ℤ
  pub clock : Clock

unfoldable pub virtual_nanos : ℤ → Time
virtual_nanos n = record { nanos = n; clock = virtual }

unfoldable pub wall_nanos : ℤ → Time
wall_nanos n = record { nanos = n; clock = wall }

pub record OpEntry : Type 0 where
  pub index : ℕ
  pub time : Time
  pub kind : OpKind
  pub process : ProcessId
  pub f : Function
  pub value : Value

abbrev pub History : Type 0
History = List OpEntry

-- The derived `PartialEq`.
abbrev pub kind_eq : OpKind → OpKind → Bool
kind_eq invoke invoke = true
kind_eq ok ok = true
kind_eq fail fail = true
kind_eq info info = true
kind_eq _ _ = false

abbrev pub clock_eq : Clock → Clock → Bool
clock_eq virtual virtual = true
clock_eq wall wall = true
clock_eq _ _ = false

unfoldable pub time_eq : Time → Time → Bool
time_eq s t = int_eq s.nanos t.nanos && clock_eq s.clock t.clock

unfoldable pub entry_eq : OpEntry → OpEntry → Bool
entry_eq x y =
    x.index == y.index
    && time_eq x.time y.time
    && kind_eq x.kind y.kind
    && x.process == y.process
    && text_eq x.f y.f
    && value_eq x.value y.value
