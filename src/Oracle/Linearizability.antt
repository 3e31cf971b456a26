-- ===== src/Oracle/Linearizability.antt =====
-- crates/propsim-oracle/src/linearizability.rs. The visited set is a list, and the recursion on
-- `remaining` is the source's own measure.
pub mod Spec
mod Undone
mod Attempt
mod Sound
mod Complete
pub mod Correct
pub mod Pairing
pub mod Check
pub mod Weaker
mod Turns
pub mod Alternating
use propsim.Base.{
  ℕ, zero, suc, ◌-◌, ◌^◌, Bool, true, false, not, ◌&&◌, ◌||◌, Option, none, some, List, [], ◌∷◌,
  ◌++◌, min, ltb, ◌==◌, if◌then◌else◌, get_or, set, length, replicate,
}
use propsim.History.{OpEntry, OpKind, History}
use propsim.History.Values.{value_eq}
use propsim.Oracle.Model.{SequentialModel, Response}

pub record Span (Op : Type 0) : Type 0 where
  pub op : Op
  pub response : Response
  pub start : ℕ
  pub finish : ℕ

-- `open.iter().rposition(..)` and `open.remove(idx)`: the last open invoke of the process, and
-- the others in their order.
unfoldable pub remove_open : ℕ → List (ℕ × OpEntry) → Option ((ℕ × OpEntry) × List (ℕ × OpEntry))
remove_open p [] = none
remove_open p ((at, inv) ∷ rest) = elim (remove_open p rest) [
  | some (found, others) ↦ some (found, (at, inv) ∷ others)
  | none ↦ if inv.process == p then some ((at, inv), rest) else none
]

abbrev pub is_fail : OpKind → Bool
is_fail OpKind.fail = true
is_fail _ = false

unfoldable pub bools_eq : List Bool → List Bool → Bool
bools_eq [] [] = true
bools_eq (true ∷ as') (true ∷ bs) = bools_eq as' bs
bools_eq (false ∷ as') (false ∷ bs) = bools_eq as' bs
bools_eq _ _ = false

abbrev pub usize_max : ℕ
usize_max = 2 ^ 64 - 1

-- The earliest finish among the spans that are not done, `usize::MAX` if there is none.
unfoldable pub min_finish : {Op : Type 0} → List Bool → List (Span Op) → ℕ
min_finish done [] = usize_max
min_finish [] (s ∷ ss) = min s.finish (min_finish [] ss)
min_finish (true ∷ done) (s ∷ ss) = min_finish done ss
min_finish (false ∷ done) (s ∷ ss) = min s.finish (min_finish done ss)

module _ (M : SequentialModel) where
  open M use {State, Op, init, step, decode, state_eq}

  -- The completion of `inv` by `e` at `pos`: a span, unless it failed or does not decode.
  unfoldable pub close_span : ℕ → OpEntry → ℕ × OpEntry → List (Span Op)
  close_span pos e (at, inv) = if is_fail e.kind then [] else elim (decode e.f inv.value e.value) [
    | some (op, resp) ↦ record { op = op; response = resp; start = at; finish = pos } ∷ []
    | none ↦ []
  ]

  -- The loop of `parse_spans` from position `pos`, with the invokes that are open.
  unfoldable pub pair_spans : ℕ → List (ℕ × OpEntry) → List OpEntry → List (Span Op)
  unfolding close_span remove_open
  pair_spans pos opened [] = []
  pair_spans pos opened (e ∷ es) = elim e.kind [
    | OpKind.invoke ↦ pair_spans (suc pos) (opened ++ ((pos, e) ∷ [])) es
    | _ ↦ elim (remove_open e.process opened) [
      | none ↦ pair_spans (suc pos) opened es
      | some (inv, others) ↦ close_span pos e inv ++ pair_spans (suc pos) others es
    ]
  ]

  unfoldable pub parse_spans : History → List (Span Op)
  unfolding pair_spans
  parse_spans entries = pair_spans 0 [] entries

  abbrev pub Visited : Type 0
  Visited = List (List Bool × State)

  unfoldable pub seen : List Bool → State → Visited → Bool
  unfolding bools_eq
  seen done st [] = false
  seen done st ((d, s) ∷ v) = bools_eq done d && state_eq st s || seen done st v

module _ (M : SequentialModel) (real_time : Bool) where
  open M use {State, Op, init, step}

  -- The loop over the spans, from index `i`; `go` is the recursive call.
  unfoldable pub attempt :
      (State → List Bool → Visited M → Bool × Visited M)
      → State
      → List Bool
      → ℕ
      → ℕ
      → List (Span Op)
      → Visited M
      → Bool × Visited M
  attempt go st done earliest i [] v = (false, v)
  attempt go st done earliest i (s ∷ ss) v =
      let later = λ (w : Visited M). attempt go st done earliest (suc i) ss w in
      if get_or done i false || (real_time && ltb earliest s.start)
      then later v
      else (let (next_state, resp) = step st s.op in
          if not (value_eq resp s.response)
          then later v
          else (let (found, w) = go next_state (set done i true) v in
              if found then (true, w) else later w))

  unfoldable pub recurse : List (Span Op) → ℕ → State → List Bool → Visited M → Bool × Visited M
  unfolding attempt seen min_finish
  recurse spans zero st done v = (true, v)
  recurse spans (suc remaining) st done v =
      if seen M done st v
      then (false, v)
      else attempt (recurse spans remaining) st done (min_finish done spans) 0 spans
          ((done, st) ∷ v)

  unfoldable pub search : List (Span Op) → Bool
  unfolding recurse
  search spans =
      if length spans == 0
      then true
      else (recurse spans (length spans) init (replicate (length spans) false) []).0

  -- Whether `check` answers with a valid verdict.
  unfoldable pub check_valid : History → Bool
  unfolding parse_spans search
  check_valid out = search (parse_spans M out)
