-- ===== src/Oracle/Linearizability/Spec.antt =====
-- What the checker decides: the orders of the spans that the model explains.
use propsim.Base.{◌≤◌, Bool, true, false, ◌&&◌, ◌≡◌, List, [], ◌∷◌, Mem, Perm, ltb}
use propsim.History.Values.{value_eq}
use propsim.Oracle.Model.{SequentialModel}
use propsim.Oracle.Linearizability.{Span, usize_max}

-- A span ends after it starts, and both are positions of the history.
abbrev pub IsSpan : {Op : Type 0} → Span Op → Type 0
IsSpan s = (s.start ≤ s.finish) × (s.finish ≤ usize_max)

-- `s` may stand before `t`: in real time, only if `t` had not finished when `s` started.
abbrev pub MayPrecede : {Op : Type 0} → Bool → Span Op → Span Op → Type 0
MayPrecede real_time s t = (real_time && ltb t.finish s.start) ≡ false

-- Each span may stand before all that follow it.
abbrev pub Respects : {Op : Type 0} → Bool → List (Span Op) → Type 0
Respects real_time [] = Unit {0}
Respects {Op} real_time (s ∷ rest) =
    ((t : Span Op) → Mem t rest → MayPrecede real_time s t) × Respects real_time rest

module _ (M : SequentialModel) where
  open M use {State, Op, init, step}

  -- Applied in order from `st`, the operations give the responses that were observed.
  abbrev pub Legal : State → List (Span Op) → Type 0
  Legal st [] = Unit {0}
  Legal st (s ∷ rest) = (value_eq (step st s.op).1 s.response ≡ true) × Legal (step st s.op).0 rest

  -- There is an order of exactly these spans that is legal and respects real time.
  abbrev pub Linearizes : Bool → State → List (Span Op) → Type 0
  Linearizes real_time st spans =
      ∥ ((order : List (Span Op)) × Perm order spans × Legal st order × Respects real_time order) ∥₁

  abbrev pub Linearizable : Bool → List (Span Op) → Type 0
  Linearizable real_time spans = Linearizes real_time init spans
