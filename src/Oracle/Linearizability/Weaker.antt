-- ===== src/Oracle/Linearizability/Weaker.antt =====
-- What the verdicts of the two oracles claim, and how they compare.
use propsim.Base.{
  ◌≤◌, ◌≡◌, refl, ◌∙◌, sym, inl, inr, Bool-cases, Bool, true, false, List, [], ◌∷◌, length,
}
use mathlib.Core.Logic.{∥∥₁_map}
use propsim.Core.Oracle.{RunOutput, pass, invalid, with_witness}
use propsim.Oracle.Model.{SequentialModel}
use propsim.Oracle.Linearizability.{Span, parse_spans, search, check_valid, usize_max}
use propsim.Oracle.Linearizability.Spec.{Respects, Linearizable}
use propsim.Oracle.Linearizability.Pairing.{check_decides}
use propsim.Oracle.Linearizability.Check.{check, refusal}

-- Without real time any span may stand before any other.

Respects-false : {Op : Type 0} (order : List (Span Op)) → Respects false order
Respects-false [] = tt
Respects-false (s ∷ rest) = (λ t m. refl, Respects-false rest)

module _ (M : SequentialModel) where
  check-valid :
      (real_time : Bool) (out : RunOutput)
      → (check M real_time out).valid ≡ check_valid M real_time out.history
  unfolding check check_valid pass refusal invalid with_witness
  check-valid real_time out = elim (Bool-cases (search M real_time (parse_spans M out.history))) [
    | inl e ↦ rw e refl
    | inr e ↦ rw e refl
  ]

  Linearizable-weaker : (spans : _) → Linearizable M true spans → Linearizable M false spans
  Linearizable-weaker spans h =
      ∥∥₁_map h λ (order, perm, legal, respects). (order, perm, legal, Respects-false order)

  -- A history that fits in memory and that the linearizability oracle accepts is accepted by the
  -- oracle of sequential consistency for the same model.
  pub check-weaker :
      (out : RunOutput)
      → length out.history ≤ usize_max
      → (check M true out).valid ≡ true
      → (check M false out).valid ≡ true
  check-weaker out n h =
      let strong = (check_decides M true out.history n).0 (sym (check-valid true out) ∙ h) in
      check-valid false out
      ∙ (check_decides M false out.history n).1
          (Linearizable-weaker (parse_spans M out.history) strong)
