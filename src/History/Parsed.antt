-- ===== src/History/Parsed.antt =====
-- The results of the readers of crates/propsim-history, and the `ParseError` of its lib.rs: a
-- constructor for each message, with what the message quotes.
use propsim.Base.{◌<◌, ◌≤◌, length, arith, ℕ, Text, ◌≢◌, refl}

pub data ParseError : Type 0 where
  trailing_input : ℕ → ParseError
  unexpected_end unterminated_map unterminated_list unterminated_string : ParseError
  trailing_escape empty_keyword : ParseError
  unrecognized_token : Text → ParseError
  json_trailing_input : ℕ → ParseError
  json_unexpected_end json_missing_colon json_malformed_object json_unterminated_array : ParseError
  json_unterminated_string json_trailing_escape json_truncated_escape : ParseError
  json_invalid_escape json_invalid_code_point json_invalid_literal : ParseError
  json_invalid_number : Text → ParseError
  not_a_vector not_a_map clock_not_keyword malformed_type malformed_f : ParseError
  unknown_clock unknown_type not_an_integer missing_integer : Text → ParseError

-- `panicked` is a panic, and `out_of_fuel` has no counterpart in the program.
pub data Parsed {ℓ} (A : Type ℓ) : Type ℓ where
  ok : A → Parsed A
  err : ParseError → Parsed A
  panicked out_of_fuel : Parsed A

module _ {ℓ κ} {A : Type ℓ} {B : Type κ} where
  infixl 1 ◌>>=◌
  abbrev pub ◌>>=◌ : Parsed A → (A → Parsed B) → Parsed B
  ok a >>= f = f a
  err e >>= f = err e
  panicked >>= f = panicked
  out_of_fuel >>= f = out_of_fuel

-- The reader came to an end without a panic, and `P` holds of what it read.
abbrev pub Ensures {ℓ} : {A : Type ℓ} → (A → Type 0) → Parsed A → Type 0
Ensures P (ok a) = P a
Ensures P (err e) = Unit
Ensures P panicked = Unit
Ensures P out_of_fuel = ⊥

-- The reader did not panic, and `P` holds of what it read.
abbrev pub NoPanic {ℓ} : {A : Type ℓ} → (A → Type 0) → Parsed A → Type 0
NoPanic P (ok a) = P a
NoPanic P (err e) = Unit
NoPanic P panicked = ⊥
NoPanic P out_of_fuel = Unit

-- The reader gave an answer or an error.
abbrev pub IsSettled {ℓ} : {A : Type ℓ} → Parsed A → Type 0
IsSettled (ok a) = Unit
IsSettled (err e) = Unit
IsSettled panicked = ⊥
IsSettled out_of_fuel = ⊥

module _ {ℓ} {A : Type ℓ} where
  pub IsSettled-Ensures : (r : Parsed A) → IsSettled r → Ensures (λ _. Unit {0}) r
  IsSettled-Ensures (ok a) h = tt
  IsSettled-Ensures (err e) h = tt
  IsSettled-Ensures panicked h = tt
  IsSettled-Ensures out_of_fuel h = h

  pub IsSettled-NoPanic : (r : Parsed A) → IsSettled r → NoPanic (λ _. Unit {0}) r
  IsSettled-NoPanic (ok a) h = tt
  IsSettled-NoPanic (err e) h = tt
  IsSettled-NoPanic panicked h = h
  IsSettled-NoPanic out_of_fuel h = tt

  pub NoPanic-panicked : (r : Parsed A) → r ≢ panicked → NoPanic (λ _. Unit {0}) r
  NoPanic-panicked (ok a) h = tt
  NoPanic-panicked (err e) h = tt
  NoPanic-panicked panicked h = h refl
  NoPanic-panicked out_of_fuel h = tt

pub IsSettled-bind {ℓ κ} :
    {A : Type ℓ} {B : Type κ} (r : Parsed A) (f : A → Parsed B)
    → IsSettled r
    → ((a : A) → IsSettled (f a))
    → IsSettled (r >>= f)
IsSettled-bind (ok a) f h k = k a
IsSettled-bind (err e) f h k = tt
IsSettled-bind panicked f h k = h
IsSettled-bind out_of_fuel f h k = h

module _ {ℓ κ} {A : Type ℓ} {B : Type κ} (P : A → Type 0) (Q : B → Type 0) where
  pub Ensures-bind :
      (r : Parsed A) (f : A → Parsed B)
      → Ensures P r
      → ((a : A) → P a → Ensures Q (f a))
      → Ensures Q (r >>= f)
  Ensures-bind (ok a) f h k = k a h
  Ensures-bind (err e) f h k = tt
  Ensures-bind panicked f h k = tt
  Ensures-bind out_of_fuel f h k = absurd h

  pub NoPanic-bind :
      (r : Parsed A) (f : A → Parsed B)
      → NoPanic P r
      → ((a : A) → P a → NoPanic Q (f a))
      → NoPanic Q (r >>= f)
  NoPanic-bind (ok a) f h k = k a h
  NoPanic-bind (err e) f h k = tt
  NoPanic-bind panicked f h k = absurd h
  NoPanic-bind out_of_fuel f h k = tt

-- What is left is shorter than `n`.
abbrev pub Leaves {ℓ} : {A : Type ℓ} → ℕ → A × Text → Type 0
Leaves n (a, rest) = length rest < n

-- A reader that is followed by a step on its value, from a text that is no longer.
pub Leaves-map {ℓ κ} :
    {A : Type ℓ} {B : Type κ} (g : A → B) (m n : ℕ) (r : Parsed (A × Text))
    → m ≤ n
    → Ensures (Leaves m) r
    → Ensures (Leaves n) (r >>= λ (a, rest). ok (g a, rest))
Leaves-map g m n r le h =
    Ensures-bind (Leaves m) (Leaves n) r _ h λ (a, rest) k. omega (arith, k, le)

pub Leaves-weaken {ℓ} :
    {A : Type ℓ} (m n : ℕ) (r : Parsed (A × Text))
    → m ≤ n
    → Ensures (Leaves m) r
    → Ensures (Leaves n) r
Leaves-weaken m n (ok (a, rest)) le h = omega (arith, le, h)
Leaves-weaken m n (err e) le h = tt
Leaves-weaken m n panicked le h = tt
Leaves-weaken m n out_of_fuel le h = h
