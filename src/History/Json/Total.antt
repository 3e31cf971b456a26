-- ===== src/History/Json/Total.antt =====
-- The reader of JSON always comes to an end.
use propsim.Base.{ℕ, zero, suc, ◌+◌, ◌*◌, ◌<◌, ◌≡◌, arith, Text, [], ◌∷◌, length, none}
use propsim.History.Values.{Value}
use propsim.History.Parsed.{Ensures, Ensures-bind, Leaves, Leaves-weaken}
use propsim.History.Edn.{FloatText}
use propsim.History.Json.Read.{
  skip_ws, lead, ahead, parse_value, parse_object, parse_array, finish, parse_json,
}
use propsim.History.Json.Lengths.{
  length-skip_ws, read_lead-Leaves, lead-LeadWithin, ahead-AheadWithin,
}
use propsim.History.Json.Inside.{next_item-Leaves, next_pair-Leaves}

module _ (F : FloatText) (parse-empty : FloatText.parse F [] ≡ none) where
  mutual
    unfolding parse_value

    parse_value-Leaves :
        (fuel : ℕ) (s : Text)
        → 2 * length s < fuel
        → Ensures (Leaves (length s)) (parse_value F fuel s)
    parse_value-Leaves zero s h = absurd (omega arith)
    parse_value-Leaves (suc fuel) s h =
        let le = length-skip_ws s in
        Leaves-weaken (length (skip_ws s)) (length s) (parse_value F (suc fuel) s) le (
          read_lead-Leaves F parse-empty (length (skip_ws s)) _ _ (lead (skip_ws s))
            (λ t k. parse_object-Leaves fuel t (omega (arith, h, k, le)))
            (λ t k. parse_array-Leaves fuel t (omega (arith, h, k, le)))
            (lead-LeadWithin (skip_ws s)))

    parse_object-Leaves :
        (fuel : ℕ) (s : Text)
        → 2 * length s + 1 < fuel
        → Ensures (Leaves (length s)) (parse_object F fuel s)
    parse_object-Leaves zero s h = absurd (omega arith)
    parse_object-Leaves (suc fuel) s h =
        let le = length-skip_ws s in
        Leaves-weaken (length (skip_ws s)) (length s) (parse_object F (suc fuel) s) le (
          next_pair-Leaves (length (skip_ws s)) (λ t. parse_value F fuel t)
            (λ t k. parse_value-Leaves fuel t (omega (arith, h, k, le))) _ (ahead b'}' (skip_ws s))
            (λ t k. parse_object-Leaves fuel t (omega (arith, h, k, le)))
            (ahead-AheadWithin b'}' (skip_ws s)))

    parse_array-Leaves :
        (fuel : ℕ) (s : Text)
        → 2 * length s + 1 < fuel
        → Ensures (Leaves (length s)) (parse_array F fuel s)
    parse_array-Leaves zero s h = absurd (omega arith)
    parse_array-Leaves (suc fuel) s h =
        let le = length-skip_ws s in
        Leaves-weaken (length (skip_ws s)) (length s) (parse_array F (suc fuel) s) le (
          next_item-Leaves (length (skip_ws s)) (λ t. parse_value F fuel t)
            (λ t k. parse_value-Leaves fuel t (omega (arith, h, k, le))) _ (ahead b']' (skip_ws s))
            (λ t k. parse_array-Leaves fuel t (omega (arith, h, k, le)))
            (ahead-AheadWithin b']' (skip_ws s)))

  finish-Ensures : (s : Text) (v : Value) (rest : Text) → Ensures (λ _. Unit {0}) (finish s v rest)
  unfolding finish
  finish-Ensures s v [] = tt
  finish-Ensures s v (c ∷ rest) = tt

  -- The reader of JSON comes to an end on every text.
  pub parse_json-Ensures : (s : Text) → Ensures (λ _. Unit {0}) (parse_json F s)
  unfolding parse_json
  parse_json-Ensures s =
      Ensures-bind (Leaves (length (skip_ws s))) (λ _. Unit {0})
        (parse_value F (2 * length s + 1) (skip_ws s)) _
        (parse_value-Leaves (2 * length s + 1) (skip_ws s) (omega (arith, length-skip_ws s)))
        λ (v, rest) _. finish-Ensures s v (skip_ws rest)
