-- ===== src/Sim/Scheduler/Turns.antt =====
-- The entries of a process take turns: what an entry does to it, and how its entries and its open
-- ops are counted.
use propsim.Base.{
  ℕ, ◌+◌, ◌≤◌, ◌<◌, ◌==◌, ◌≡◌, refl, ap, inl, inr, Bool, true, false, ◌&&◌, Option, none, some,
  List, [], ◌∷◌, ◌++◌, arith, All, ltb, if◌then◌else◌, Bool-cases,
}
use propsim.Base.Maps.{find, put, remove}
use propsim.History.{History, OpEntry, ProcessId}
use propsim.Sim.Scheduler.{PendingOp, is_terminal, closed_for}

-- What an entry does to a process that has an op open or not; none where it may not stand.

abbrev pub turn : ProcessId → OpEntry → Bool → Option Bool
turn p e running =
    if e.process == p
    then (if is_terminal e.kind
        then (if running then some false else none)
        else (if running then none else some true))
    else some running

abbrev pub after_turn : ProcessId → OpEntry → Option Bool → Option Bool
after_turn p e none = none
after_turn p e (some running) = turn p e running

-- Whether process `p` has an op open after the history; none if its entries do not alternate
-- between invokes and completions.
unfoldable pub status : ProcessId → Option Bool → History → Option Bool
status p s [] = s
status p s (e ∷ h) = status p (after_turn p e s) h

pub status-append :
    (p : ProcessId) (s : Option Bool) (h : History) (e : OpEntry)
    → status p s (h ++ e ∷ []) ≡ after_turn p e (status p s h)
unfolding status
status-append p s [] e = refl
status-append p s (x ∷ h) e = status-append p (after_turn p x s) h e

abbrev pub one_if : Bool → ℕ
one_if true = 1
one_if false = 0

pub closed_for-append :
    (h : History) (e : OpEntry) (p : ProcessId)
    → closed_for (h ++ e ∷ []) p ≡ closed_for h p + one_if (e.process == p && is_terminal e.kind)
unfolding closed_for
closed_for-append [] e p = ground arith
closed_for-append (x ∷ h) e p = ground (arith, closed_for-append h e p)

-- The open ops of process `p`.
unfoldable pub open_for : ProcessId → List (ℕ × PendingOp) → ℕ
open_for p [] = 0
open_for p ((k, op) ∷ m) = one_if (op.process == p) + open_for p m

pub open_for-put :
    (p : ProcessId) (k : ℕ) (op : PendingOp) (m : List (ℕ × PendingOp))
    → All (λ (e : ℕ × PendingOp). e.0 < k) m
    → open_for p (put k op m) ≡ one_if (op.process == p) + open_for p m
unfolding open_for put
open_for-put p k op [] h = refl
open_for-put p k op ((j, w) ∷ m) h = ground (arith, open_for-put p k op m h.1)

pub open_for-find :
    (p : ProcessId) (k : ℕ) (op : PendingOp) (m : List (ℕ × PendingOp))
    → find k m ≡ some op
    → open_for p m ≡ one_if (op.process == p) + open_for p (remove k m)
unfolding open_for find remove
open_for-find p k op [] h = cc
open_for-find p k op ((j, w) ∷ m) h = elim (Bool-cases (k == j)) [
  | inl same ↦ rw same (
      let e = rw (same, find) at h in
      let q : w ≡ op = cc in ap (λ (x : PendingOp). one_if (x.process == p) + open_for p m) q)
  | inr other ↦ rw other (let e = rw (other, find) at h in omega (arith, open_for-find p k op m e))
]

pub put-All :
    (n k : ℕ) (op : PendingOp) (m : List (ℕ × PendingOp))
    → k < n
    → All (λ (e : ℕ × PendingOp). e.0 < n) m
    → All (λ (e : ℕ × PendingOp). e.0 < n) (put k op m)
unfolding put
put-All n k op [] l h = (l, tt)
put-All n k op ((j, w) ∷ m) l h = ground (arith, put-All n k op m l h.1)

pub remove-All :
    (n k : ℕ) (m : List (ℕ × PendingOp))
    → All (λ (e : ℕ × PendingOp). e.0 < n) m
    → All (λ (e : ℕ × PendingOp). e.0 < n) (remove k m)
unfolding remove
remove-All n k [] h = tt
remove-All n k ((j, w) ∷ m) h = ground (arith, remove-All n k m h.1)

pub turn_close :
    (p : ProcessId) (e : OpEntry) (n m : ℕ)
    → is_terminal e.kind ≡ true
    → n ≡ one_if (e.process == p) + m
    → n ≤ 1
    → turn p e (ltb 0 n) ≡ some (ltb 0 m)
turn_close p e n m t h k = ground arith

pub turn_open :
    (p : ProcessId) (e : OpEntry) (n m : ℕ)
    → is_terminal e.kind ≡ false
    → m ≡ one_if (e.process == p) + n
    → m ≤ 1
    → turn p e (ltb 0 n) ≡ some (ltb 0 m)
turn_open p e n m t h k = ground arith
