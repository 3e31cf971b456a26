-- ===== src/Oracle/Linearizability/Sound.antt =====
-- Soundness of the search: what it accepts can be placed.
use mathlib.Core.List.Perm
use mathlib.Core.Logic.{∥∥₁_map}
use mathlib.Core.List.{mem-cons}
use mathlib.Core.Logic.Or
use mathlib.Core.Bool.{false≢true}
use propsim.Base.{
  ℕ, zero, suc, ◌+◌, ◌≡◌, refl, ◌∙◌, ap, subst, inl, inr, Bool, true, false, ◌&&◌, some, List, [],
  ◌∷◌, Mem, arith, ltb, length, get_elem?, set, length-set, Bool-cases,
}
use propsim.Oracle.Model.{SequentialModel}
use propsim.Oracle.Linearizability.{Span, Visited, seen, recurse, min_finish}
use propsim.Oracle.Linearizability.Spec.{MayPrecede, Linearizes}
use propsim.Oracle.Linearizability.Undone.{undone, undone-set, length-undone-set, min_finish-le}
use propsim.Oracle.Linearizability.Attempt.{Callable, attempt-Success}

eq-nil_of_length {ℓ} : {A : Type ℓ} (xs : List A) → length xs ≡ 0 → xs ≡ []
eq-nil_of_length [] h = refl
eq-nil_of_length (x ∷ xs) h = absurd (omega arith)

module _ (M : SequentialModel) (real_time : Bool) (spans : List (Span M.Op)) where
  open M use {State, Op, init, step}

  callable-MayPrecede :
      (done : List Bool) (s t : Span Op)
      → (real_time && ltb (min_finish done spans) s.start) ≡ false
      → Mem t (undone done spans)
      → MayPrecede real_time s t
  callable-MayPrecede done s t h m = ground (arith, min_finish-le done spans t m)

  abbrev pub Placed : List Bool → State → Type 0
  Placed done st = Linearizes M real_time st (undone done spans)

  place :
      (done : List Bool) (st : State) (i : ℕ) (s : Span Op)
      → length done ≡ length spans
      → get_elem? spans i ≡ some s
      → Callable M real_time st done (min_finish done spans) i s
      → Placed (set done i true) (step st s.op).0
      → Placed done st
  place done st i s n e c p = ∥∥₁_map p λ (order, perm, legal, resp).
      let whole = Perm.trans (Perm.cons s perm) (undone-set done spans i s n c.todo e) in
      (
        s ∷ order,
        whole,
        (c.answers, legal),
        (
          λ t m.
              callable-MayPrecede done s t c.on_time
                ((Perm.mem_iff whole).0 (mem-cons.1 (Or.inr m))),
          resp,
        ),
      )

  pub recurse_sound :
      (r : ℕ) (st : State) (done : List Bool) (v w : Visited M)
      → length done ≡ length spans
      → length (undone done spans) ≡ r
      → recurse M real_time spans r st done v ≡ (true, w)
      → Placed done st
  unfolding recurse
  recurse_sound zero st done v w n k h =
      rw (eq-nil_of_length (undone done spans) k) (∣ ([], Perm.refl [], tt, tt) ∣₁)
  recurse_sound (suc r) st done v w n k h = elim (Bool-cases (seen M done st v)) [
    | inl old ↦ absurd (false≢true (ap (λ x. x.0) (rw old at h)))
    | inr new ↦
        let (j, s, e, c, u, w', found) =
          attempt-Success M real_time (recurse M real_time spans r) st done (min_finish done spans)
            spans 0 ((done, st) ∷ v) w (rw new at h) in
        let at : get_elem? spans (0 + j) ≡ some s =
          subst (λ i. get_elem? spans i ≡ some s) (omega arith) e in
        let count = length-undone-set done spans (0 + j) s n c.todo at in
        place done st (0 + j) s n at c (
          recurse_sound r (step st s.op).0 (set done (0 + j) true) u w'
            (length-set done (0 + j) true ∙ n) (omega (arith, count)) found)
  ]
