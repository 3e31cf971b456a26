-- ===== src/History/Json/Tame.antt =====
-- What the parts of the reader of JSON do on a text that cannot make them panic.
use propsim.Base.{
  ℕ, zero, suc, ◌+◌, ◌<◌, ◌≡◌, refl, arith, Bool-cases, inl, inr, Bool, true, false, ◌==◌, ltb, leb,
  Text, [], ◌∷◌, ◌++◌, if_intro, ◌&&◌, ◌||◌, not, Option, none, some,
}
use propsim.Numerals.{spell_all, without_plus}
use propsim.History.Parsed.{Parsed, ok, ◌>>=◌, NoPanic, NoPanic-bind}
use propsim.History.Edn.{is_space}
use propsim.History.Edn.Tame.{IsTame}
use propsim.History.Edn.Read.{utf8_width, unescape}
use propsim.History.Json.Read.{
  skip_ws, StringMode, plain, backslash, unicode, StringStep, close, crash, push, enter, refuse,
  push_char, push_hex, string_step, string_end, continue, string_from, is_number_char, take_number,
}

-- The first `n` characters, as far as there are so many, take one byte each.

abbrev pub Short : ℕ → Text → Type 0
Short zero s = Unit
Short (suc n) [] = Unit
Short (suc n) (c ∷ s) = (leb 128 c ≡ false) × Short n s

abbrev pub Guards : ℕ → Text → Type 0
Guards c s = (c == b'\\') ≡ true → Short 5 s

-- No character of several bytes stands among the five behind a backslash.
abbrev pub IsGuarded : Text → Type 0
IsGuarded [] = Unit
IsGuarded (c ∷ s) = Guards c s × IsGuarded s

-- The test of it.
abbrev short : ℕ → Text → Bool
short zero s = true
short (suc n) [] = true
short (suc n) (c ∷ s) = not (leb 128 c) && short n s

abbrev pub guarded : Text → Bool
guarded [] = true
guarded (c ∷ s) = (not (c == b'\\') || short 5 s) && guarded s

short-Short : (n : ℕ) (s : Text) → short n s ≡ true → Short n s
short-Short zero s h = tt
short-Short (suc n) [] h = tt
short-Short (suc n) (c ∷ s) h =
    let one : leb 128 c ≡ false = ground (arith, h) in (one, short-Short n s (ground (arith, h)))

pub guarded-IsGuarded : (s : Text) → guarded s ≡ true → IsGuarded s
guarded-IsGuarded [] h = tt
guarded-IsGuarded (c ∷ s) h =
    (λ e. short-Short 5 s (ground (arith, h, e)), guarded-IsGuarded s (ground (arith, h)))

pub IsGuarded-IsTame : (s : Text) → IsGuarded s → IsTame s
IsGuarded-IsTame [] h = tt
IsGuarded-IsTame (c ∷ []) h = (tt, tt)
IsGuarded-IsTame (c ∷ d ∷ s) h = (λ e. (h.0 e).0, IsGuarded-IsTame (d ∷ s) h.1)

abbrev pub LeavesGuarded {ℓ} : {A : Type ℓ} → A × Text → Type 0
LeavesGuarded (a, rest) = IsGuarded rest

pub skip_ws-IsGuarded : (s : Text) → IsGuarded s → IsGuarded (skip_ws s)
unfolding skip_ws
skip_ws-IsGuarded [] h = tt
skip_ws-IsGuarded (c ∷ s) h = elim (Bool-cases (is_space c)) [
  | inl e ↦ rw (e, skip_ws) (skip_ws-IsGuarded s h.1)
  | inr e ↦ rw (e, skip_ws) h
]

pub take_number-IsGuarded : (s : Text) → IsGuarded s → IsGuarded (take_number s).1
unfolding take_number
take_number-IsGuarded [] h = tt
take_number-IsGuarded (c ∷ s) h = elim (Bool-cases (is_number_char c)) [
  | inl e ↦ rw (e, take_number) (take_number-IsGuarded s h.1)
  | inr e ↦ rw (e, take_number) h
]

module _ {ℓ κ} {A : Type ℓ} {B : Type κ} where
  pub NoPanic-map :
      (g : A → B) (r : Parsed (A × Text))
      → NoPanic LeavesGuarded r
      → NoPanic LeavesGuarded (r >>= λ (a, rest). ok (g a, rest))
  NoPanic-map g r h = NoPanic-bind LeavesGuarded LeavesGuarded r _ h λ (a, rest) k. k

-- What is left of the four bytes of an escape is one character each.
pub record WithinEscape (n : ℕ) (s : Text) : Type 0 where
  pub left : ℕ
  pub sum : n + suc left ≡ 4
  pub short : Short (suc left) s

abbrev pub ModeSafe : StringMode → Text → Type 0
ModeSafe plain s = Unit
ModeSafe backslash s = Short 5 s
ModeSafe (unicode n hex) s = WithinEscape n s

abbrev StepSafe : StringStep → Text → Type 0
StepSafe close s = Unit
StepSafe crash s = ⊥
StepSafe (push d) s = Unit
StepSafe (enter mode) s = ModeSafe mode s
StepSafe (refuse e) s = Unit

push_char-StepSafe : (o : Option ℕ) (s : Text) → StepSafe (push_char o) s
push_char-StepSafe none s = tt
push_char-StepSafe (some code) s =
    if_intro (λ st. StepSafe st s) (leb 0xD800 code && leb code 0xDFFF) _ (push code) (λ _. tt)
      (λ _. tt)

one_byte : (c : ℕ) → leb 128 c ≡ false → utf8_width c ≡ 1
unfolding utf8_width
one_byte c h = ground arith

inner_escape :
    (n left : ℕ) (s : Text) → n + suc left ≡ 4 → Short left s → n + 1 < 4 → WithinEscape (n + 1) s
inner_escape n zero s e h less = absurd (omega (arith, e, less))
inner_escape n (suc left) s e h less = record { left = left; sum = omega (arith, e); short = h }

escape_step-StepSafe :
    (n : ℕ) (hex : Text) (c : ℕ) (s : Text)
    → WithinEscape n (c ∷ s)
    → StepSafe (string_step (unicode n hex) c) s
unfolding string_step push_hex
escape_step-StepSafe n hex c s w =
    let hex' = hex ++ c ∷ [] in
    rw (string_step, one_byte c (w.short.0))
      (if_intro (λ st. StepSafe st s) (ltb (n + 1) 4) (enter (unicode (n + 1) hex')) _
        (λ less. inner_escape n w.left s w.sum (w.short.1) (ground (arith, less)))
        λ late.
          if_intro (λ st. StepSafe st s) ((n + 1) == 4) (push_hex hex') crash
            (λ _. push_char-StepSafe (spell_all 16 (without_plus hex')) s)
            (λ differ. absurd (ground (arith, late, differ, w.sum))))

string_step-StepSafe :
    (mode : StringMode) (c : ℕ) (s : Text)
    → ModeSafe mode (c ∷ s)
    → Guards c s
    → StepSafe (string_step mode c) s
unfolding string_step
string_step-StepSafe plain c s m g =
    if_intro (λ st. StepSafe st s) (c == b'"') close _ (λ _. tt)
      λ _. if_intro (λ st. StepSafe st s) (c == b'\\') (enter backslash) (push c) g (λ _. tt)
string_step-StepSafe backslash c s m g =
    if_intro (λ st. StepSafe st s) (c == b'u') (enter (unicode 0 [])) _
      (λ _. record { left = 3; sum = refl; short = m.1 })
      λ _.
        if_intro (λ st. StepSafe st s) (leb 128 c) crash (push (unescape c))
          (λ wide. let bad = m.0 in let bad' : true ≡ false = cc in absurd (cc)) (λ _. tt)
string_step-StepSafe (unicode n hex) c s m g = escape_step-StepSafe n hex c s m

continue-NoPanic :
    (read : StringMode → Parsed (Text × Text)) (s : Text) (st : StringStep)
    → ((mode : StringMode) → ModeSafe mode s → NoPanic LeavesGuarded (read mode))
    → StepSafe st s
    → IsGuarded s
    → NoPanic LeavesGuarded (continue read s st)
continue-NoPanic read s close k safe h = h
continue-NoPanic read s crash k safe h = absurd safe
continue-NoPanic read s (push d) k safe h = NoPanic-map _ (read plain) (k plain tt)
continue-NoPanic read s (enter mode) k safe h = k mode safe
continue-NoPanic read s (refuse e) k safe h = tt

string_end-NoPanic : (mode : StringMode) → NoPanic LeavesGuarded (string_end mode)
string_end-NoPanic plain = tt
string_end-NoPanic backslash = tt
string_end-NoPanic (unicode n hex) = tt

pub string_from-NoPanic :
    (s : Text) (mode : StringMode)
    → ModeSafe mode s
    → IsGuarded s
    → NoPanic LeavesGuarded (string_from s mode)
unfolding string_from
string_from-NoPanic [] mode m h = string_end-NoPanic mode
string_from-NoPanic (c ∷ s) mode m h =
    continue-NoPanic (λ k. string_from s k) s (string_step mode c)
      (λ k safe. string_from-NoPanic s k safe h.1) (string_step-StepSafe mode c s m h.0) h.1
