-- ===== src/Oracle/Linearizability/Alternating.antt =====
-- Pairing on a history in which every process takes turns: no op is lost.
use propsim.Base.{
  ℕ, suc, ◌+◌, ◌≡◌, refl, inl, inr, true, false, not, ◌&&◌, arith, some, List, [], ◌∷◌, ◌++◌,
  length, Bool-cases, subst, All, length-append,
}
use propsim.History.{History, OpEntry, ProcessId}
use propsim.History.Values.{Value}
use propsim.Sim.Scheduler.{is_terminal}
use propsim.Sim.Scheduler.Turns.{status, one_if}
use propsim.Oracle.Model.{SequentialModel, Response}
use propsim.Oracle.Linearizability.{is_fail, remove_open, close_span, pair_spans, parse_spans}
use propsim.Oracle.Linearizability.Turns.{
  InTurns, Opened, Parted, append-Opened, remove_open-Parted, invoke-InTurns, close-InTurns,
}

-- The completions that do not fail.

abbrev pub answered : History → ℕ
answered [] = 0
answered (e ∷ h) = one_if (is_terminal e.kind && not (is_fail e.kind)) + answered h

module _ (M : SequentialModel) (V : Value → Type 0) where
  open M use {Op, decode}

  -- The value of an invoke is in `V`, and the model decodes an answer to such a value.
  abbrev pub IsDecoded : OpEntry → Type 0
  IsDecoded e =
      (is_terminal e.kind ≡ false → V e.value)
      × (is_terminal e.kind && not (is_fail e.kind) ≡ true
          → (v : Value) → V v
          → (r : Op × Response) × (decode e.f v e.value ≡ some r))

  close_span-length :
      (pos : ℕ) (e : OpEntry) (inv : ℕ × OpEntry)
      → is_terminal e.kind ≡ true
      → V inv.1.value
      → IsDecoded e
      → length (close_span M pos e inv) ≡ one_if (not (is_fail e.kind))
  unfolding close_span
  close_span-length pos e (at, inv) k good d = elim (Bool-cases (is_fail e.kind)) [
    | inl failed ↦ rw failed refl
    | inr fine ↦
        let (r, decoded) = d.1 (rw (k, fine) refl) inv.value good in rw (fine, decoded) refl
  ]

  pair_spans-invoke :
      (pos : ℕ) (opened : List (ℕ × OpEntry)) (e : OpEntry) (h : History)
      → is_terminal e.kind ≡ false
      → pair_spans M pos opened (e ∷ h) ≡ pair_spans M (suc pos) (opened ++ (pos, e) ∷ []) h
  unfolding pair_spans
  pair_spans-invoke pos opened e h k = ground arith

  pair_spans-close :
      (pos : ℕ) (opened others : List (ℕ × OpEntry)) (inv : ℕ × OpEntry) (e : OpEntry) (h : History)
      → is_terminal e.kind ≡ true
      → remove_open e.process opened ≡ some (inv, others)
      → pair_spans M pos opened (e ∷ h) ≡ close_span M pos e inv ++ pair_spans M (suc pos) others h
  unfolding pair_spans
  pair_spans-close pos opened others inv e h k found = ground arith

  pair_spans-length :
      (pos : ℕ) (opened : List (ℕ × OpEntry)) (h : History)
      → InTurns opened h
      → Opened V opened
      → All IsDecoded h
      → length (pair_spans M pos opened h) ≡ answered h
  pair_spans-length pos opened [] m o d = unfold pair_spans in refl
  pair_spans-length pos opened (e ∷ h) m o d = elim (Bool-cases (is_terminal e.kind)) [
    | inl k ↦
        let (inv, others, found, m') = close-InTurns opened e h k m in
        let parted = subst (Parted V) found (remove_open-Parted V e.process opened o) in
        let rest = pair_spans-length (suc pos) others h m' parted.1 d.1 in
        let here = close_span-length pos e inv k parted.0 d.0 in
        rw (pair_spans-close pos opened others inv e h k found, length-append, here, rest, k) refl
    | inr k ↦
        let rest =
          pair_spans-length (suc pos) (opened ++ (pos, e) ∷ []) h
            (invoke-InTurns opened pos e h k m) (append-Opened V opened (pos, e) o (d.0.0 k)) d.1 in
        rw (pair_spans-invoke pos opened e h k, rest, k) (omega arith)
  ]

  -- On a history in which the entries of each process alternate between invokes and completions, and
  -- the model decodes the answers to the values that are invoked, each completion that does not fail
  -- is paired to a span, and there are no other spans.
  pub parse_spans-length :
      (h : History)
      → ((p : ProcessId) → status p (some false) h ≡ some false)
      → All IsDecoded h
      → length (parse_spans M h) ≡ answered h
  unfolding parse_spans
  parse_spans-length h turns d =
      let m : InTurns [] h = record { few = λ p. omega arith; turns = turns } in
      pair_spans-length 0 [] h m tt d
