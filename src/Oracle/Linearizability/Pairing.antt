-- ===== src/Oracle/Linearizability/Pairing.antt =====
-- `parse_spans` makes spans that end after they start, at positions of the history.
use propsim.Base.{
  ◌⊎◌, inl, inr, ◌↔◌, ℕ, suc, ◌+◌, ◌≤◌, ◌<◌, ◌≡◌, Bool, true, Option, none, some, List, [], ◌∷◌,
  ◌++◌, Mem, arith, length,
}
use mathlib.Core.List.{not-mem-nil, mem-cons}
use mathlib.Core.Logic.Or
use mathlib.Core.HLevel.{×_prop}
use native.Mathlib.Bridge.{le_prop}
use propsim.History.{OpEntry, History}
use propsim.Oracle.Model.{SequentialModel}
use propsim.Oracle.Linearizability.{
  Span, remove_open, close_span, pair_spans, parse_spans, usize_max, check_valid,
}
use propsim.Oracle.Linearizability.Spec.{IsSpan, Linearizable}
use propsim.Oracle.Linearizability.Correct.{search_decides}

-- The open invokes stand before position `pos`.

abbrev AllBelow : ℕ → List (ℕ × OpEntry) → Type 0
AllBelow pos [] = Unit {0}
AllBelow pos ((at, e) ∷ rest) = (at < pos) × AllBelow pos rest

AllBelow-suc : (pos : ℕ) (es : List (ℕ × OpEntry)) → AllBelow pos es → AllBelow (suc pos) es
AllBelow-suc pos [] h = tt
AllBelow-suc pos ((at, e) ∷ rest) h = (omega arith, AllBelow-suc pos rest h.1)

AllBelow-push :
    (pos : ℕ) (es : List (ℕ × OpEntry)) (e : OpEntry)
    → AllBelow pos es
    → AllBelow (suc pos) (es ++ ((pos, e) ∷ []))
AllBelow-push pos [] e h = (omega arith, tt)
AllBelow-push pos ((at, x) ∷ rest) e h = (omega arith, AllBelow-push pos rest e h.1)

abbrev Removed : ℕ → Option ((ℕ × OpEntry) × List (ℕ × OpEntry)) → Type 0
Removed pos none = Unit {0}
Removed pos (some (inv, others)) = (inv.0 < pos) × AllBelow pos others

remove_open-Removed :
    (pos p : ℕ) (es : List (ℕ × OpEntry)) → AllBelow pos es → Removed pos (remove_open p es)
unfolding remove_open
remove_open-Removed pos p [] h = tt
remove_open-Removed pos p ((at, e) ∷ rest) h = ground (arith, remove_open-Removed pos p rest h.1)

module _ (M : SequentialModel) where
  open M use {Op}

  -- Every span ends after it starts, and before position `n`.
  abbrev AllBounded : ℕ → List (Span Op) → Type 0
  AllBounded n [] = Unit {0}
  AllBounded n (s ∷ ss) = ((s.start < s.finish) × (s.finish < n)) × AllBounded n ss

  AllBounded-append :
      (n : ℕ) (ss ts : List (Span Op)) → AllBounded n ss → AllBounded n ts → AllBounded n (ss ++ ts)
  AllBounded-append n [] ts h k = k
  AllBounded-append n (s ∷ ss) ts h k = (h.0, AllBounded-append n ss ts h.1 k)

  AllBounded-mem :
      (n : ℕ) (ss : List (Span Op)) (s : Span Op)
      → AllBounded n ss
      → Mem s ss
      → (s.start < s.finish) × (s.finish < n)
  AllBounded-mem n [] s h m = absurd (not-mem-nil m)
  AllBounded-mem n (x ∷ ss) s h m =
      Or.elim (×_prop le_prop le_prop) (mem-cons.0 m) (λ e. rw e h.0) (AllBounded-mem n ss s h.1)

  close_span-AllBounded :
      (pos n : ℕ) (e : OpEntry) (inv : ℕ × OpEntry)
      → inv.0 < pos
      → pos < n
      → AllBounded n (close_span M pos e inv)
  unfolding close_span
  close_span-AllBounded pos n e (at, inv) h k = ground arith

  -- A completion closes the last open invoke of its process, or nothing.
  abbrev complete :
      ℕ
      → List (ℕ × OpEntry)
      → OpEntry
      → List OpEntry
      → Option ((ℕ × OpEntry) × List (ℕ × OpEntry))
      → List (Span Op)
  complete pos opened e es none = pair_spans M (suc pos) opened es
  complete pos opened e es (some (inv, others)) =
      close_span M pos e inv ++ pair_spans M (suc pos) others es

  pair_spans-cons :
      (pos : ℕ) (opened : List (ℕ × OpEntry)) (e : OpEntry) (es : List OpEntry)
      → (pair_spans M pos opened (e ∷ es) ≡ pair_spans M (suc pos) (opened ++ ((pos, e) ∷ [])) es)
        ⊎ (pair_spans M pos opened (e ∷ es)
            ≡ complete pos opened e es (remove_open e.process opened))
  unfolding pair_spans
  pair_spans-cons pos opened e es = ground arith

  complete-AllBounded :
      (n pos : ℕ) (opened : List (ℕ × OpEntry)) (e : OpEntry) (es : List OpEntry)
      (o : Option ((ℕ × OpEntry) × List (ℕ × OpEntry)))
      → ((others : List (ℕ × OpEntry))
          → AllBelow (suc pos) others
          → AllBounded n (pair_spans M (suc pos) others es))
      → AllBelow pos opened
      → pos < n
      → Removed pos o
      → AllBounded n (complete pos opened e es o)
  complete-AllBounded n pos opened e es none ih h k ok = ih opened (AllBelow-suc pos opened h)
  complete-AllBounded n pos opened e es (some (inv, others)) ih h k ok =
      AllBounded-append n (close_span M pos e inv) _ (close_span-AllBounded pos n e inv ok.0 k)
        (ih others (AllBelow-suc pos others ok.1))

  pair_spans-AllBounded :
      (n pos : ℕ) (opened : List (ℕ × OpEntry)) (es : List OpEntry)
      → AllBelow pos opened
      → n ≡ pos + length es
      → AllBounded n (pair_spans M pos opened es)
  pair_spans-AllBounded n pos opened [] h e = unfold pair_spans in tt
  pair_spans-AllBounded n pos opened (x ∷ es) h e =
      let ih = λ (others : List (ℕ × OpEntry)) (b : AllBelow (suc pos) others).
        pair_spans-AllBounded n (suc pos) others es b (omega arith) in
      elim (pair_spans-cons pos opened x es) [
        | inl p ↦ rw p (ih (opened ++ ((pos, x) ∷ [])) (AllBelow-push pos opened x h))
        | inr p ↦ rw p (
            complete-AllBounded n pos opened x es (remove_open x.process opened) ih h (omega arith)
              (remove_open-Removed pos x.process opened h))
      ]

  pub parse_spans-IsSpan :
      (h : History) (s : Span Op) → length h ≤ usize_max → Mem s (parse_spans M h) → IsSpan s
  unfolding parse_spans
  parse_spans-IsSpan h s n m =
      let (ends, in_range) =
        AllBounded-mem (length h) (pair_spans M 0 [] h) s
          (pair_spans-AllBounded (length h) 0 [] h tt (omega arith)) m in
      (omega arith, omega arith)

  -- On a history that fits in memory the verdict of `check` is valid exactly if some order of the
  -- spans that it pairs is legal for the model and, for the linearizability oracle, respects real
  -- time.
  pub check_decides :
      (real_time : Bool) (h : History)
      → length h ≤ usize_max
      → (check_valid M real_time h ≡ true) ↔ Linearizable M real_time (parse_spans M h)
  unfolding check_valid
  check_decides real_time h n =
      search_decides M real_time (parse_spans M h) (λ s m. parse_spans-IsSpan h s n m)
