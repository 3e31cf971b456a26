-- ===== src/History/Codec/Safe.antt =====
-- When reading a history cannot panic.
use propsim.Base.{
  ℕ, zero, suc, ◌≡◌, ◌≢◌, Bool, true, false, Bool-cases, inl, inr, ◌||◌, ◌==◌, Text, [], ◌∷◌, subst,
  List, All, if◌then◌else◌, if_intro, leb,
}
use propsim.Texts.{trim, trim_start, is_white}
use propsim.History.Parsed.{
  Parsed, panicked, ◌>>=◌, NoPanic, NoPanic-bind, NoPanic-panicked, IsSettled-NoPanic,
}
use propsim.History.Edn.{FloatText}
use propsim.History.Edn.Read.{parse_edn}
use propsim.History.Edn.Safe.{parse_edn-no_panic}
use propsim.History.Json.Read.{parse_json}
use propsim.History.Json.Tame.{Short, IsGuarded, IsGuarded-IsTame}
use propsim.History.Json.Safe.{parse_json-NoPanic}
use propsim.History.Codec.Settled.{value_to_entry-IsSettled, entries_of-IsSettled}
use propsim.History.Codec.{
  value_to_entry, entries_of, read_lines, from_jepsen, starts_with, looks_like_json, lines, onto,
  is_empty,
}

-- A line of a guarded text is guarded.

abbrev FirstShort : ℕ → List Text → Type 0
FirstShort n [] = Unit
FirstShort n (l ∷ ls) = Short n l

Short-nil : (n : ℕ) → Short n []
Short-nil zero = tt
Short-nil (suc n) = tt

onto-FirstShort :
    (n c : ℕ) (ls : List Text)
    → leb 128 c ≡ false
    → FirstShort n ls
    → FirstShort (suc n) (onto c ls)
onto-FirstShort n c [] e h = (e, Short-nil n)
onto-FirstShort n c (l ∷ ls) e h = (e, h)

FirstShort-zero : (ls : List Text) → FirstShort 0 ls
FirstShort-zero [] = tt
FirstShort-zero (l ∷ ls) = tt

-- A line feed ends the first line at once.
lines-at_feed : (n : ℕ) (s : Text) → starts_with b'\n' s ≡ true → FirstShort n (lines s)
unfolding lines starts_with
lines-at_feed n [] e = cc
lines-at_feed n (c ∷ s) e = rw (e, lines) (Short-nil n)

lines-FirstShort : (n : ℕ) (s : Text) → Short n s → FirstShort n (lines s)
unfolding lines
lines-FirstShort zero s h = FirstShort-zero (lines s)
lines-FirstShort (suc n) [] h = tt
lines-FirstShort (suc n) (c ∷ s) h =
    let rest = onto-FirstShort n c (lines s) h.0 (lines-FirstShort n s h.1) in
    if_intro (FirstShort (suc n)) (c == b'\n') ([] ∷ lines s) _ (λ _. tt)
      λ _.
        if_intro (FirstShort (suc n)) (c == b'\r') _ (onto c (lines s))
          (λ _.
            if_intro (FirstShort (suc n)) (starts_with b'\n' s) (lines s) (onto c (lines s))
              (λ e. lines-at_feed (suc n) s e) (λ _. rest))
          (λ _. rest)

onto-IsGuarded :
    (c : ℕ) (ls : List Text)
    → ((c == b'\\') ≡ true → FirstShort 5 ls)
    → All IsGuarded ls
    → All IsGuarded (onto c ls)
onto-IsGuarded c [] g h = ((λ _. tt, tt), tt)
onto-IsGuarded c (l ∷ ls) g h = ((g, h.0), h.1)

lines-IsGuarded : (s : Text) → IsGuarded s → All IsGuarded (lines s)
unfolding lines
lines-IsGuarded [] h = tt
lines-IsGuarded (c ∷ s) h =
    let inner = lines-IsGuarded s h.1 in
    let rest = onto-IsGuarded c (lines s) (λ e. lines-FirstShort 5 s (h.0 e)) inner in
    if_intro (All IsGuarded) (c == b'\n') ([] ∷ lines s) _ (λ _. (tt, inner))
      λ _.
        if_intro (All IsGuarded) (c == b'\r') _ (onto c (lines s))
          (λ _.
            if_intro (All IsGuarded) (starts_with b'\n' s) (lines s) (onto c (lines s)) (λ _. inner)
              (λ _. rest))
          (λ _. rest)

trim_start-IsGuarded : (s : Text) → IsGuarded s → IsGuarded (trim_start s)
unfolding trim_start
trim_start-IsGuarded [] h = tt
trim_start-IsGuarded (c ∷ s) h =
    if_intro IsGuarded (is_white c) (trim_start s) (c ∷ s) (λ _. trim_start-IsGuarded s h.1)
      (λ _. h)

abbrev Calm {ℓ} : {A : Type ℓ} → Parsed A → Type 0
Calm r = NoPanic (λ _. Unit {0}) r

Calm-bind {ℓ κ} :
    {A : Type ℓ} {B : Type κ} (r : Parsed A) (f : A → Parsed B)
    → Calm r
    → ((a : A) → Calm (f a))
    → Calm (r >>= f)
Calm-bind r f h k = NoPanic-bind (λ _. Unit {0}) (λ _. Unit {0}) r f h λ a _. k a

module _ (F : FloatText) where
  parse_edn-Calm : (s : Text) → IsGuarded s → Calm (parse_edn F s)
  parse_edn-Calm s h =
      NoPanic-panicked (parse_edn F s) (parse_edn-no_panic F s (IsGuarded-IsTame s h))

  read_lines-Calm : (ls : List Text) → All IsGuarded ls → Calm (read_lines F ls)
  unfolding read_lines
  read_lines-Calm [] h = tt
  read_lines-Calm (line ∷ rest) h = elim (Bool-cases (is_empty (trim line))) [
    | inl e ↦ rw (e, read_lines) (read_lines-Calm rest h.1)
    | inr e ↦
        rw (e, read_lines)
          (Calm-bind (parse_edn F line) _ (parse_edn-Calm line h.0) λ v.
            Calm-bind (value_to_entry v) _ (IsSettled-NoPanic _ (value_to_entry-IsSettled v))
              λ e. Calm-bind (read_lines F rest) _ (read_lines-Calm rest h.1) λ es. tt)
  ]

  sequence-Calm :
      (json : Bool) (s : Text) → IsGuarded s → Calm (if json then parse_json F s else parse_edn F s)
  sequence-Calm true s h = parse_json-NoPanic F s h
  sequence-Calm false s h = parse_edn-Calm s h

  -- Reading a history does not panic on a text with no character of several bytes among the five
  -- behind a backslash, whichever of the formats it is taken for.
  pub from_jepsen-no_panic : (s : Text) → IsGuarded s → from_jepsen F s ≢ panicked
  unfolding from_jepsen
  from_jepsen-no_panic s h e =
      let t = trim_start s in
      let calm : Calm (from_jepsen F s) =
        if_intro Calm (starts_with b'[' t || starts_with b'(' t)
          ((if looks_like_json t then parse_json F t else parse_edn F t) >>= λ v. entries_of v)
          (read_lines F (lines s))
          (λ _.
            Calm-bind _ _ (sequence-Calm (looks_like_json t) t (trim_start-IsGuarded s h))
              λ v. IsSettled-NoPanic _ (entries_of-IsSettled v))
          (λ _. read_lines-Calm (lines s) (lines-IsGuarded s h)) in
      subst Calm e calm
