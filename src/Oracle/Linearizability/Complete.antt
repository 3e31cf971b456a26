-- ===== src/Oracle/Linearizability/Complete.antt =====
-- Completeness of the search: what it rejects, also through the visited set, has no order.
use mathlib.Core.Logic.{∥∥₁_elim}
use mathlib.Core.List.{mem-cons_self, mem-cons}
use mathlib.Core.List.Perm
use mathlib.Core.Logic.Or
use mathlib.Core.Bool.{true≢false}
use mathlib.Core.HLevel.{⊥_prop}
use native.Mathlib.Bridge.{le_prop}
use propsim.Base.{
  ℕ, zero, suc, ◌+◌, ◌≤◌, ◌≡◌, refl, ◌∙◌, ap, subst, ◌⊎◌, inl, inr, Bool, true, false, ◌&&◌, some,
  List, [], ◌∷◌, Mem, Perm, arith, ltb, length, get_elem?, set, length-set, Bool-cases,
}
use propsim.Oracle.Model.{SequentialModel}
use propsim.Oracle.Linearizability.{Span, Visited, seen, recurse, bools_eq, min_finish}
use propsim.Oracle.Linearizability.Spec.{IsSpan, MayPrecede, Respects, Legal, IsSpan}
use propsim.Oracle.Linearizability.Undone.{
  undone, undone-set, length-undone-set, le-min_finish, Place, Place-of_mem,
}
use propsim.Oracle.Linearizability.Attempt.{Callable, Extends, Dead, AllFail, attempt-AllFail}
use propsim.Oracle.Linearizability.Sound.{Placed}

mem_of_get_elem? {ℓ} :
    {A : Type ℓ} (xs : List A) (i : ℕ) (a : A) → get_elem? xs i ≡ some a → Mem a xs
mem_of_get_elem? [] i a h = cc
mem_of_get_elem? (x ∷ xs) zero a h =
    let p : x ≡ a = cc in subst (λ y. Mem y (x ∷ xs)) p mem-cons_self
mem_of_get_elem? (x ∷ xs) (suc i) a h = mem-cons.1 (Or.inr (mem_of_get_elem? xs i a h))

bools_eq→≡ : (as' bs : List Bool) → bools_eq as' bs ≡ true → as' ≡ bs
unfolding bools_eq
bools_eq→≡ [] [] h = refl
bools_eq→≡ [] (b ∷ bs) h = cc
bools_eq→≡ (true ∷ as') [] h = cc
bools_eq→≡ (false ∷ as') [] h = cc
bools_eq→≡ (true ∷ as') (true ∷ bs) h = ap (◌∷◌ true) (bools_eq→≡ as' bs h)
bools_eq→≡ (true ∷ as') (false ∷ bs) h = cc
bools_eq→≡ (false ∷ as') (true ∷ bs) h = cc
bools_eq→≡ (false ∷ as') (false ∷ bs) h = ap (◌∷◌ false) (bools_eq→≡ as' bs h)

module _ (M : SequentialModel) (real_time : Bool) (spans : List (Span M.Op)) where
  open M use {State, Op, init, step}

  -- No way to place what is left.
  abbrev pub Stuck : State → List Bool → Type 0
  Stuck st done = ¬ Placed M real_time spans done st

  on_time :
      (done : List Bool) (s : Span Op)
      → (real_time ≡ true → s.start ≤ min_finish done spans)
      → (real_time && ltb (min_finish done spans) s.start) ≡ false
  on_time done s h = elim (Bool-cases real_time) [
    | inl on ↦ ground (arith, h on)
    | inr off ↦ rw off refl
  ]

  precedes : (s t : Span Op) → MayPrecede real_time s t → real_time ≡ true → s.start ≤ t.finish
  precedes s t h on = ground arith

  module _ (spans-IsSpan : (s : Span Op) → Mem s spans → IsSpan s) where
    order-Stuck :
        (done : List Bool) (st : State) (order : List (Span Op)) (r : ℕ)
        → length done ≡ length spans
        → length (undone done spans) ≡ suc r
        → AllFail M Stuck real_time st done (min_finish done spans) 0 spans
        → Perm order (undone done spans)
        → Legal M st order
        → Respects real_time order
        → ⊥
    order-Stuck done st [] r n k fails perm legal resp =
        absurd (omega (arith, ap length (Perm.nil-eq perm)))
    order-Stuck done st (s ∷ rest) r n k fails perm legal resp =
        ∥∥₁_elim (Place-of_mem done spans s n ((Perm.mem_iff perm).0 mem-cons_self)) ⊥_prop go
      where
        bound : (i : ℕ) → get_elem? spans i ≡ some s → IsSpan s
        bound i e = spans-IsSpan s (mem_of_get_elem? spans i s e)

        in_time :
            (i : ℕ)
            → get_elem? spans i ≡ some s
            → real_time ≡ true
            → s.start ≤ min_finish done spans
        in_time i e on =
            let (le, top) = bound i e in
            le-min_finish done spans s.start (omega arith) λ t m.
              Or.elim le_prop (mem-cons.0 ((Perm.mem_iff perm).1 m)) (λ p. rw p le)
                (λ later. precedes s t (resp.0 t later) on)

        go : Place done spans s → ⊥
        go (i, todo, e) =
            let c : Callable M real_time st done (min_finish done spans) (0 + i) s =
              subst (λ k. Callable M real_time st done (min_finish done spans) k s) (omega arith)
                (record {
                  todo = todo;
                  on_time = on_time done s (in_time i e);
                  answers = legal.0;
                }) in
            let left =
              Perm.cons_inv (Perm.trans perm (Perm.symm (undone-set done spans i s n todo e))) in
            let m : 0 + i ≡ i = omega arith in
            fails i s e c (rw m (∣ (rest, left, legal.1, resp.1) ∣₁))

    seen_cons :
        (d done : List Bool) (s st : State) (v : Visited M)
        → seen M d s ((done, st) ∷ v) ≡ true
        → (d ≡ done) × (s ≡ st) ⊎ (seen M d s v ≡ true)
    unfolding seen
    seen_cons d done s st v h = elim (Bool-cases (bools_eq d done && M.state_eq s st)) [
      | inr new ↦ inr (rw new at h)
      | inl same ↦ let (p, q) = both same in inl (bools_eq→≡ d done p, (M.state_eq_iff s st).0 q)
    ]
      where
        both :
            bools_eq d done && M.state_eq s st ≡ true
            → (bools_eq d done ≡ true) × (M.state_eq s st ≡ true)
        both h = ground arith

    visit-Dead :
        (r : ℕ) (st : State) (done : List Bool) (v : Visited M)
        → length (undone done spans) ≡ suc r
        → Dead M Stuck spans (suc r) v
        → Dead M Stuck spans r ((done, st) ∷ v)
    visit-Dead r st done v k dead d s m few = elim (seen_cons d done s st v m) [
      | inl (p, q) ↦ absurd (omega (arith, k, ap (λ x. length (undone x spans)) p))
      | inr old ↦ dead d s old (omega arith)
    ]

    visit-Extends :
        (st : State) (done : List Bool) (v w : Visited M)
        → Stuck st done
        → Extends M Stuck ((done, st) ∷ v) w
        → Extends M Stuck v w
    visit-Extends st done v w stuck grows d s m = elim (grows d s m) [
      | inr dies ↦ inr dies
      | inl m' ↦ elim (seen_cons d done s st v m') [
        | inl (p, q) ↦ inr (rw (p, q) stuck)
        | inr old ↦ inl old
      ]
    ]

    pub recurse_complete :
        (r : ℕ) (st : State) (done : List Bool) (v w : Visited M)
        → length done ≡ length spans
        → length (undone done spans) ≡ r
        → Dead M Stuck spans r v
        → recurse M real_time spans r st done v ≡ (false, w)
        → Stuck st done × Extends M Stuck v w
    unfolding recurse
    recurse_complete zero st done v w n k dead h = absurd (true≢false (ap (λ x. x.0) h))
    recurse_complete (suc r) st done v w n k dead h = elim (Bool-cases (seen M done st v)) [
      | inl old ↦ (
        dead done st old (omega arith),
        subst (Extends M Stuck v) (ap (λ x. x.1) (rw old at h)) (λ d s m. inl m),
      )
      | inr new ↦
          let (fails, grows) =
            attempt-AllFail M Stuck real_time (recurse M real_time spans r) st done
              (min_finish done spans) spans r
              (λ i s next v' w' e todo dead' ends.
                recurse_complete r next (set done i true) v' w' (length-set done i true ∙ n)
                  (omega (arith, length-undone-set done spans i s n todo e)) dead' ends)
              spans 0 ((done, st) ∷ v) w
              (λ j s e. subst (λ i. get_elem? spans i ≡ some s) (omega arith) e)
              (visit-Dead r st done v k dead) (rw new at h) in
          let stuck : Stuck st done = λ p.
            ∥∥₁_elim p ⊥_prop
              λ (order, perm, legal, resp). order-Stuck done st order r n k fails perm legal resp in
          (stuck, visit-Extends st done v w stuck grows)
    ]
