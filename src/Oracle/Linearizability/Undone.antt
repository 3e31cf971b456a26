-- ===== src/Oracle/Linearizability/Undone.antt =====
-- The spans that a search node has still to place.
use mathlib.Core.Logic.{∥∥₁_map}
use mathlib.Core.Logic.Or
use mathlib.Core.List.{mem-cons, not-mem-nil, mem-cons_self}
use mathlib.Core.List.Perm
use native.Mathlib.Bridge.{le_prop}
use propsim.Base.{
  ℕ, zero, suc, ◌≤◌, ◌≡◌, refl, ap, Bool, true, false, some, List, [], ◌∷◌, Mem, Perm, arith,
  length, get_elem?, get_or, set, replicate,
}
use propsim.Oracle.Linearizability.{Span, min_finish, usize_max}

module _ {Op : Type 0} where
  abbrev pub undone : List Bool → List (Span Op) → List (Span Op)
  undone done [] = []
  undone [] (s ∷ ss) = s ∷ undone [] ss
  undone (true ∷ done) (s ∷ ss) = undone done ss
  undone (false ∷ done) (s ∷ ss) = s ∷ undone done ss

  pub undone-set :
      (done : List Bool) (ss : List (Span Op)) (i : ℕ) (s : Span Op)
      → length done ≡ length ss
      → get_or done i false ≡ false
      → get_elem? ss i ≡ some s
      → Perm (s ∷ undone (set done i true) ss) (undone done ss)
  undone-set done [] i s n h e = cc
  undone-set [] (x ∷ ss) i s n h e = absurd (omega arith)
  undone-set (true ∷ done) (x ∷ ss) zero s n h e = cc
  undone-set (false ∷ done) (x ∷ ss) zero s n h e = Perm.cons' (ground arith) Perm.rfl
  undone-set (true ∷ done) (x ∷ ss) (suc i) s n h e = undone-set done ss i s (omega arith) h e
  undone-set (false ∷ done) (x ∷ ss) (suc i) s n h e =
      Perm.trans (Perm.swap x s _) (Perm.cons x (undone-set done ss i s (omega arith) h e))

  pub length-undone-set :
      (done : List Bool) (ss : List (Span Op)) (i : ℕ) (s : Span Op)
      → length done ≡ length ss
      → get_or done i false ≡ false
      → get_elem? ss i ≡ some s
      → length (undone done ss) ≡ suc (length (undone (set done i true) ss))
  length-undone-set done [] i s n h e = cc
  length-undone-set [] (x ∷ ss) i s n h e = absurd (omega arith)
  length-undone-set (true ∷ done) (x ∷ ss) zero s n h e = cc
  length-undone-set (false ∷ done) (x ∷ ss) zero s n h e = refl
  length-undone-set (true ∷ done) (x ∷ ss) (suc i) s n h e =
      length-undone-set done ss i s (omega arith) h e
  length-undone-set (false ∷ done) (x ∷ ss) (suc i) s n h e =
      ap suc (length-undone-set done ss i s (omega arith) h e)

  pub undone-replicate : (ss : List (Span Op)) → undone (replicate (length ss) false) ss ≡ ss
  undone-replicate [] = refl
  undone-replicate (s ∷ ss) = ap (◌∷◌ s) (undone-replicate ss)

  pub min_finish-le :
      (done : List Bool) (ss : List (Span Op)) (t : Span Op)
      → Mem t (undone done ss)
      → min_finish done ss ≤ t.finish
  unfolding min_finish
  min_finish-le done [] t m = absurd (not-mem-nil m)
  min_finish-le [] (s ∷ ss) t m =
      Or.elim le_prop (mem-cons.0 m) (λ e. rw e (omega arith))
        (λ k. omega (arith, min_finish-le [] ss t k))
  min_finish-le (true ∷ done) (s ∷ ss) t m = min_finish-le done ss t m
  min_finish-le (false ∷ done) (s ∷ ss) t m =
      Or.elim le_prop (mem-cons.0 m) (λ e. rw e (omega arith))
        (λ k. omega (arith, min_finish-le done ss t k))

  pub le-min_finish :
      (done : List Bool) (ss : List (Span Op)) (x : ℕ)
      → x ≤ usize_max
      → ((t : Span Op) → Mem t (undone done ss) → x ≤ t.finish)
      → x ≤ min_finish done ss
  unfolding min_finish
  le-min_finish done [] x h k = h
  le-min_finish [] (s ∷ ss) x h k =
      omega (arith, k s mem-cons_self, le-min_finish [] ss x h (λ t m. k t (mem-cons.1 (Or.inr m))))
  le-min_finish (true ∷ done) (s ∷ ss) x h k = le-min_finish done ss x h k
  le-min_finish (false ∷ done) (s ∷ ss) x h k =
      omega
        (arith, k s mem-cons_self, le-min_finish done ss x h (λ t m. k t (mem-cons.1 (Or.inr m))))

  -- An index at which the span stands, not yet done.
  abbrev pub Place : List Bool → List (Span Op) → Span Op → Type 0
  Place done ss s = (i : ℕ) × (get_or done i false ≡ false) × (get_elem? ss i ≡ some s)

  abbrev later_place :
      (done : List Bool) (ss : List (Span Op)) (s : Span Op) (b : Bool) (x : Span Op)
      → Place done ss s
      → Place (b ∷ done) (x ∷ ss) s
  later_place done ss s b x (i, h, e) = (suc i, h, e)

  pub Place-of_mem :
      (done : List Bool) (ss : List (Span Op)) (s : Span Op)
      → length done ≡ length ss
      → Mem s (undone done ss)
      → ∥ Place done ss s ∥₁
  Place-of_mem done [] s n m = absurd (not-mem-nil m)
  Place-of_mem [] (x ∷ ss) s n m = absurd (omega arith)
  Place-of_mem (true ∷ done) (x ∷ ss) s n m =
      ∥∥₁_map (Place-of_mem done ss s (omega arith) m) (later_place done ss s true x)
  Place-of_mem (false ∷ done) (x ∷ ss) s n m =
      Or.elim squash₁ (mem-cons.0 m) (λ e. ∣ (zero, refl, rw e) ∣₁)
        (λ k. ∥∥₁_map (Place-of_mem done ss s (omega arith) k) (later_place done ss s false x))
