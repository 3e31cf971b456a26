-- ===== src/History/Codec/Total.antt =====
-- Reading a history always comes to an end.
use propsim.Base.{
  if_intro, ◌≡◌, ◌≢◌, Bool, true, false, Bool-cases, inl, inr, ◌||◌, Text, [], ◌∷◌, none, subst,
  List, if◌then◌else◌,
}
use propsim.Texts.{trim, trim_start}
use propsim.History.Parsed.{Parsed, out_of_fuel, ◌>>=◌, Ensures, Ensures-bind, IsSettled-Ensures}
use propsim.History.Edn.{FloatText}
use propsim.History.Edn.Read.{parse_edn}
use propsim.History.Edn.Total.{parse_edn-Ensures}
use propsim.History.Json.Read.{parse_json}
use propsim.History.Json.Total.{parse_json-Ensures}
use propsim.History.Codec.Settled.{value_to_entry-IsSettled, entries_of-IsSettled}
use propsim.History.Codec.{
  value_to_entry, entries_of, read_lines, from_jepsen, starts_with, looks_like_json, lines,
  is_empty,
}

abbrev Ends {ℓ} : {A : Type ℓ} → Parsed A → Type 0
Ends r = Ensures (λ _. Unit {0}) r

Ends-bind {ℓ κ} :
    {A : Type ℓ} {B : Type κ} (r : Parsed A) (f : A → Parsed B)
    → Ends r
    → ((a : A) → Ends (f a))
    → Ends (r >>= f)
Ends-bind r f h k = Ensures-bind (λ _. Unit {0}) (λ _. Unit {0}) r f h λ a _. k a

module _ (F : FloatText) (parse-empty : FloatText.parse F [] ≡ none) where
  read_lines-Ends : (ls : List Text) → Ends (read_lines F ls)
  unfolding read_lines
  read_lines-Ends [] = tt
  read_lines-Ends (line ∷ rest) = elim (Bool-cases (is_empty (trim line))) [
    | inl e ↦ rw (e, read_lines) (read_lines-Ends rest)
    | inr e ↦
        rw (e, read_lines)
          (Ends-bind (parse_edn F line) _ (parse_edn-Ensures F parse-empty line) λ v.
            Ends-bind (value_to_entry v) _ (IsSettled-Ensures _ (value_to_entry-IsSettled v))
              λ e. Ends-bind (read_lines F rest) _ (read_lines-Ends rest) λ es. tt)
  ]

  sequence-Ends : (json : Bool) (s : Text) → Ends (if json then parse_json F s else parse_edn F s)
  sequence-Ends true s = parse_json-Ensures F parse-empty s
  sequence-Ends false s = parse_edn-Ensures F parse-empty s

  -- Reading a history comes to an end on every text, EDN, JSON or neither: the fuel of the model,
  -- 2 n + 1 nested calls of a reader on a text of n characters, always suffices, provided that
  -- `parse::<f64>` refuses the empty text.
  pub from_jepsen-terminates : (s : Text) → from_jepsen F s ≢ out_of_fuel
  unfolding from_jepsen
  from_jepsen-terminates s e =
      let t = trim_start s in
      let ends : Ends (from_jepsen F s) =
        if_intro Ends (starts_with b'[' t || starts_with b'(' t)
          ((if looks_like_json t then parse_json F t else parse_edn F t) >>= λ v. entries_of v)
          (read_lines F (lines s))
          (λ _.
            Ends-bind _ _ (sequence-Ends (looks_like_json t) t)
              λ v. IsSettled-Ensures _ (entries_of-IsSettled v))
          (λ _. read_lines-Ends (lines s)) in
      subst Ends e ends
