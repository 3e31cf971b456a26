-- ===== src/Core/Node.antt =====
-- crates/propsim-core/src/node.rs. A callback of a node sees the world through `Ctx` alone, so it
-- is the tree of its calls: each call that answers hands its answer to the rest of the callback.
use propsim.Base.{ℕ, ◌+◌, ◌-◌, ◌*◌, ◌%◌, Option, Text, leb, if◌then◌else◌}
use propsim.History.{Function}
use propsim.History.Values.{Value}

abbrev pub NodeId : Type 0
NodeId = ℕ

abbrev pub OpToken : Type 0
OpToken = ℕ

-- A `Duration`, in nanoseconds. The source's panic past 2^64 seconds is not modelled.
abbrev pub Duration : Type 0
Duration = ℕ

abbrev pub millis : ℕ → Duration
millis n = n * 1_000_000

abbrev pub secs : ℕ → Duration
secs n = n * 1_000_000_000

pub data OpOutcome (R : Type 0) : Type 0 where
  done : R → OpOutcome R
  pending : OpOutcome R

pub data Completion (R : Type 0) : Type 0 where
  ok : R → Completion R
  fail : Completion R
  info : Completion R

-- The calls of the trait `Ctx`, and the value that the callback ends with.
pub data Effect (Msg Timer Response A : Type 0) : Type 0 where
  ret : A → Effect Msg Timer Response A
  send : NodeId → Msg → Effect Msg Timer Response A → Effect Msg Timer Response A
  broadcast : Msg → Effect Msg Timer Response A → Effect Msg Timer Response A
  set_timer : Timer → Duration → Effect Msg Timer Response A → Effect Msg Timer Response A
  cancel_timer : Timer → Effect Msg Timer Response A → Effect Msg Timer Response A
  now : (Duration → Effect Msg Timer Response A) → Effect Msg Timer Response A
  next_u64 : (ℕ → Effect Msg Timer Response A) → Effect Msg Timer Response A
  me : (NodeId → Effect Msg Timer Response A) → Effect Msg Timer Response A
  complete_op :
      OpToken → Completion Response → Effect Msg Timer Response A → Effect Msg Timer Response A

-- `Rng::duration_ms`, the default method: no draw is made from an empty range.
unfoldable pub duration_ms :
    {Msg Timer Response A : Type 0}
    → ℕ
    → ℕ
    → (Duration → Effect Msg Timer Response A)
    → Effect Msg Timer Response A
duration_ms start end k =
    if leb end start
    then k (millis start)
    else next_u64 (λ n. k (millis (start + n % (end - start))))

-- The trait `Node` with `Default` and the `Debug` of its timer tags. What a callback changes in
-- the node is the new state that it ends with.
pub record Node : Type 1 where
  pub State : Type 0
  pub Msg : Type 0
  pub Timer : Type 0
  pub Op : Type 0
  pub Response : Type 0
  pub initial : State
  pub debug : Timer → Text
  pub on_start : State → Effect Msg Timer Response State
  pub on_msg : State → NodeId → Msg → Effect Msg Timer Response State
  pub on_timer : State → Timer → Effect Msg Timer Response State
  pub on_client_op : State → Op → OpToken → Effect Msg Timer Response (State × OpOutcome Response)

-- The trait `ClientCodec`.
pub record ClientCodec (Op Response : Type 0) : Type 0 where
  pub decode : Value → Option (Function × Op)
  pub encode_response : Function → Response → Value
