-- ===== src/Sim/Scheduler/Count.antt =====
-- The number of queued events of a sort, which `pop` on the heap splits.
use propsim.Base.{
  ℕ, ◌+◌, ◌≡◌, refl, Bool, arith, some, none, Option, List, [], ◌∷◌, if_intro, subst,
}
use propsim.Sim.Scheduler.Turns.{one_if}
use propsim.Sim.Scheduler.{Scheduled, EventKind, earlier, keep_min, take_min}
use propsim.Sim.Scheduler.Queue.{Chosen, take_min-Chosen}

module _ {M T : Type 0} (sort : Scheduled M T → Bool) where
  unfoldable pub counted : List (Scheduled M T) → ℕ
  counted [] = 0
  counted (e ∷ q) = one_if (sort e) + counted q

  abbrev Split : List (Scheduled M T) → Option (Scheduled M T × List (Scheduled M T)) → Type 0
  Split q none = Unit {0}
  Split q (some (ev, rest)) = counted q ≡ one_if (sort ev) + counted rest

  keep_min-Split :
      (x : Scheduled M T) (q : List (Scheduled M T))
      (o : Option (Scheduled M T × List (Scheduled M T)))
      → (o ≡ none → q ≡ [])
      → Split q o
      → Split (x ∷ q) (keep_min x o)
  unfolding keep_min counted
  keep_min-Split x q none n h = rw (n refl) refl
  keep_min-Split x q (some (y, rest)) n h =
      if_intro (Split (x ∷ q)) (earlier y x) _ _ (λ _. omega arith) (λ _. omega arith)

  take_min-Split : (q : List (Scheduled M T)) → Split q (take_min q)
  unfolding take_min
  take_min-Split [] = tt
  take_min-Split (x ∷ q) =
      keep_min-Split x q (take_min q) (λ e. subst (Chosen q) e (take_min-Chosen q))
        (take_min-Split q)

  -- An event taken off the queue is one less of its sort.
  pub counted-taken :
      (q : List (Scheduled M T)) (ev : Scheduled M T) (rest : List (Scheduled M T))
      → take_min q ≡ some (ev, rest)
      → counted q ≡ one_if (sort ev) + counted rest
  counted-taken q ev rest taken = subst (Split q) taken (take_min-Split q)

-- The events of a kind.
abbrev pub queued : {M T : Type 0} → (EventKind M T → Bool) → List (Scheduled M T) → ℕ
queued sort = counted (λ e. sort e.kind)

pub queued-taken :
    {M T : Type 0} (sort : EventKind M T → Bool) (q : List (Scheduled M T)) (ev : Scheduled M T)
    (rest : List (Scheduled M T))
    → take_min q ≡ some (ev, rest)
    → queued sort q ≡ one_if (sort ev.kind) + queued sort rest
queued-taken sort = counted-taken (λ e. sort e.kind)
