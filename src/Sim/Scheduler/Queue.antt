-- ===== src/Sim/Scheduler/Queue.antt =====
-- The event queue: `pop` on the heap takes an event that no other precedes, and keeps the others.
use mathlib.Core.List.Perm
use propsim.Base.{
  suc, ◌≡◌, refl, true, false, some, none, Option, List, [], ◌∷◌, Perm, arith, All, All-map,
  if_intro, subst, length,
}
use propsim.Sim.Scheduler.{Scheduled, earlier, take_min, keep_min}

module _ {M T : Type 0} where
  -- The order of the heap is total and transitive.
  pub earlier-total :
      (x y : Scheduled M T)
      → earlier x y ≡ false
      → earlier y x ≡ false
      → (x.at ≡ y.at) × (x.seq ≡ y.seq)
  unfolding earlier
  earlier-total x y h k = ground arith

  earlier-flip : (x y : Scheduled M T) → earlier y x ≡ true → earlier x y ≡ false
  unfolding earlier
  earlier-flip x y h = ground arith

  earlier_trans :
      (x y z : Scheduled M T) → earlier y x ≡ false → earlier z y ≡ false → earlier z x ≡ false
  unfolding earlier
  earlier_trans x y z h k = ground arith

  -- The queue without an event that no other precedes.
  abbrev pub Chosen : List (Scheduled M T) → Option (Scheduled M T × List (Scheduled M T)) → Type 0
  Chosen q none = q ≡ []
  Chosen q (some (ev, rest)) =
      Perm q (ev ∷ rest) × All (λ y. earlier y ev ≡ false) rest × (length q ≡ suc (length rest))

  keep_min-Chosen :
      (x : Scheduled M T) (xs : List (Scheduled M T))
      (o : Option (Scheduled M T × List (Scheduled M T)))
      → Chosen xs o
      → Chosen (x ∷ xs) (keep_min x o)
  unfolding keep_min
  keep_min-Chosen x xs none h = rw h (Perm.refl (x ∷ []), tt, refl)
  keep_min-Chosen x xs (some (y, rest)) (perm, least, len) =
      if_intro (Chosen (x ∷ xs)) (earlier y x) _ _
        (λ e. (
          Perm.trans (Perm.cons x perm) (Perm.swap y x rest),
          (earlier-flip x y e, least),
          omega arith,
        ))
        (λ e. (
          Perm.cons x perm,
          (
            e,
            All-map (λ z. earlier z y ≡ false) (λ z. earlier z x ≡ false) rest
                (λ z. earlier_trans x y z e) least,
          ),
          omega arith,
        ))

  -- The pop of the heap fails on the empty queue only, and otherwise splits
  -- off an event that no other precedes and keeps the others.
  pub take_min-Chosen : (q : List (Scheduled M T)) → Chosen q (take_min q)
  unfolding take_min
  take_min-Chosen [] = refl
  take_min-Chosen (x ∷ xs) = keep_min-Chosen x xs (take_min xs) (take_min-Chosen xs)

  pub Chosen-some :
      (q : List (Scheduled M T)) (ev : Scheduled M T) (rest : List (Scheduled M T))
      → take_min q ≡ some (ev, rest)
      → Chosen q (some (ev, rest))
  Chosen-some q ev rest e = subst (Chosen q) e (take_min-Chosen q)

  abbrev Kept {ℓ} :
      (Scheduled M T → Type ℓ) → Option (Scheduled M T × List (Scheduled M T)) → Type ℓ
  Kept P none = Unit
  Kept P (some (ev, rest)) = P ev × All P rest

  keep_min-Kept {ℓ} :
      (P : Scheduled M T → Type ℓ) (x : Scheduled M T)
      (o : Option (Scheduled M T × List (Scheduled M T)))
      → P x
      → Kept P o
      → Kept P (keep_min x o)
  unfolding keep_min
  keep_min-Kept P x none h k = (h, tt)
  keep_min-Kept P x (some (y, rest)) h k =
      if_intro (Kept P) (earlier y x) _ _ (λ _. (k.0, (h, k.1))) (λ _. (h, k))

  take_min-Kept {ℓ} :
      (P : Scheduled M T → Type ℓ) (q : List (Scheduled M T)) → All P q → Kept P (take_min q)
  unfolding take_min
  take_min-Kept P [] h = tt
  take_min-Kept P (x ∷ xs) h = keep_min-Kept P x (take_min xs) h.0 (take_min-Kept P xs h.1)

  -- What holds of all events of the queue holds of the one taken off and of the others.
  pub All-taken {ℓ} :
      (P : Scheduled M T → Type ℓ) (q : List (Scheduled M T)) (ev : Scheduled M T)
      (rest : List (Scheduled M T))
      → take_min q ≡ some (ev, rest)
      → All P q
      → P ev × All P rest
  All-taken P q ev rest e h = subst (Kept P) e (take_min-Kept P q h)
