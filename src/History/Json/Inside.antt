-- ===== src/History/Json/Inside.antt =====
-- What the reader of JSON leaves of the text within a collection.
use propsim.Base.{ℕ, ◌≤◌, ◌<◌, arith, Text, [], ◌∷◌, length}
use propsim.History.Values.{Value, Values, Pairs}
use propsim.History.Parsed.{Parsed, Ensures, Ensures-bind, Leaves, Leaves-map, Leaves-weaken}
use propsim.History.Json.Read.{
  skip_ws, parse_string, Ahead, at_end, closed, passed, quoted, other, after_colon, read_pair,
  next_pair, read_item, next_item,
}
use propsim.History.Json.Lengths.{
  length-skip_ws, parse_string-Leaves, after_colon-Ensures, AheadWithin,
}

module _ (n : ℕ) (rv : Text → Parsed (Value × Text))
    (hv : (t : Text) → length t ≤ n → Ensures (Leaves (length t)) (rv t)) where
  read_item-Leaves :
      (ri : Text → Parsed (Values × Text)) (t : Text)
      → ((t : Text) → length t < n → Ensures (Leaves (length t)) (ri t))
      → length t ≤ n
      → Ensures (Leaves n) (read_item rv ri t)
  read_item-Leaves ri t hi w =
      Ensures-bind (Leaves (length t)) (Leaves n) (rv t) _ (hv t w) λ (v, t') k.
        Leaves-map _ (length t') n (ri t') (omega (arith, k, w)) (hi t' (omega (arith, k, w)))

  pub next_item-Leaves :
      (ri : Text → Parsed (Values × Text)) (a : Ahead)
      → ((t : Text) → length t < n → Ensures (Leaves (length t)) (ri t))
      → AheadWithin n a
      → Ensures (Leaves n) (next_item rv ri a)
  next_item-Leaves ri at_end hi w = tt
  next_item-Leaves ri (closed rest) hi w = w
  next_item-Leaves ri (passed t) hi w =
      Leaves-weaken (length t) n (ri t) (omega (arith, w)) (hi t w)
  next_item-Leaves ri (quoted t) hi w = read_item-Leaves ri t hi w
  next_item-Leaves ri (other t) hi w = read_item-Leaves ri t hi w

  read_pair-Leaves :
      (rp : Text → Parsed (Pairs × Text)) (t : Text)
      → ((t : Text) → length t < n → Ensures (Leaves (length t)) (rp t))
      → length t < n
      → Ensures (Leaves n) (read_pair rv rp t)
  read_pair-Leaves rp t hp w =
      Ensures-bind (Leaves (length t)) (Leaves n) (parse_string t) _ (parse_string-Leaves t)
        λ (key, t') k.
          Ensures-bind (λ rest. length rest < length (skip_ws t')) (Leaves n)
            (after_colon (skip_ws t')) _ (after_colon-Ensures (skip_ws t'))
            λ t'' k'.
              let le = length-skip_ws t' in
              Ensures-bind (Leaves (length t'')) (Leaves n) (rv t'') _
                (hv t'' (omega (arith, k, k', le, w)))
                λ (v, t3) k''.
                  Leaves-map _ (length t3) n (rp t3) (omega (arith, k, k', k'', le, w))
                    (hp t3 (omega (arith, k, k', k'', le, w)))

  pub next_pair-Leaves :
      (rp : Text → Parsed (Pairs × Text)) (a : Ahead)
      → ((t : Text) → length t < n → Ensures (Leaves (length t)) (rp t))
      → AheadWithin n a
      → Ensures (Leaves n) (next_pair rv rp a)
  next_pair-Leaves rp at_end hp w = tt
  next_pair-Leaves rp (closed rest) hp w = w
  next_pair-Leaves rp (passed t) hp w =
      Leaves-weaken (length t) n (rp t) (omega (arith, w)) (hp t w)
  next_pair-Leaves rp (quoted []) hp w = tt
  next_pair-Leaves rp (quoted (quote ∷ t)) hp w = read_pair-Leaves rp t hp (omega (arith, w))
  next_pair-Leaves rp (other t) hp w = tt
