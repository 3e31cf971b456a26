-- ===== src/Oracle/Linearizability/Correct.antt =====
-- The search and the verdict of `check` decide linearizability.
use mathlib.Core.List.Perm
use mathlib.Core.Bool.{false≢true}
use propsim.Base.{
  ◌==◌, ==_iff, ◌≡◌, refl, ap, sym, subst, ◌↔◌, inl, inr, Bool, true, false, List, [], ◌∷◌, Mem,
  arith, length, replicate, length-replicate, Bool-cases,
}
use propsim.Oracle.Model.{SequentialModel}
use propsim.Oracle.Linearizability.{Span, Visited, seen, recurse, search}
use propsim.Oracle.Linearizability.Spec.{IsSpan, Linearizes, Linearizable}
use propsim.Oracle.Linearizability.Undone.{undone-replicate}
use propsim.Oracle.Linearizability.Sound.{recurse_sound}
use propsim.Oracle.Linearizability.Complete.{recurse_complete}

module _ (M : SequentialModel) (real_time : Bool) where
  open M use {State, Op, init, step}

  abbrev root : List (Span Op) → Bool × Visited M
  root spans = recurse M real_time spans (length spans) init (replicate (length spans) false) []

  Linearizable-empty : (spans : List (Span Op)) → length spans ≡ 0 → Linearizable M real_time spans
  Linearizable-empty [] z = ∣ ([], Perm.refl [], tt, tt) ∣₁
  Linearizable-empty (s ∷ ss) z = absurd (omega arith)

  root_decides :
      (spans : List (Span Op))
      → ((s : Span Op) → Mem s spans → IsSpan s)
      → ((root spans).0 ≡ true) ↔ Linearizable M real_time spans
  unfolding seen
  root_decides spans h =
      let all = undone-replicate spans in
      let start = replicate (length spans) false in
      let n = length-replicate (length spans) false in
      let k = ap length all in
      (
        λ e. subst (Linearizes M real_time init) all (
            recurse_sound M real_time spans (length spans) init start [] (root spans).1 n k
              (λ i. (e i, (root spans).1))),
        λ l. elim (Bool-cases (root spans).0) [
          | inl found ↦ found
          | inr failed ↦ absurd (
              (recurse_complete M real_time spans h (length spans) init start [] (root spans).1 n k
                  (λ d s m. absurd (false≢true m)) (λ i. (failed i, (root spans).1))).0
                (subst (Linearizes M real_time init) (sym all) l))
        ],
      )

  -- The search succeeds exactly if some order of the spans is legal and respects real time.
  pub search_decides :
      (spans : List (Span Op))
      → ((s : Span Op) → Mem s spans → IsSpan s)
      → (search M real_time spans ≡ true) ↔ Linearizable M real_time spans
  unfolding search
  search_decides spans h = elim (Bool-cases (length spans == 0)) [
    | inl z ↦ (λ _. Linearizable-empty spans ((==_iff _ 0).0 z), λ _. rw z refl)
    | inr nz ↦ rw nz (root_decides spans h)
  ]
