-- ===== src/History/Json/Strings.antt =====
-- Strings and keys are read back from JSON.
use propsim.Base.{ℕ, ◌≡◌, refl, inl, inr, arith, false, ◌==◌, leb, Text, [], ◌∷◌, ◌++◌, All}
use propsim.Numerals.{show_int}
use propsim.History.Values.{Value, int, str, keyword}
use propsim.History.Parsed.{ok, ◌>>=◌}
use propsim.History.Edn.{FloatText, escaped, push_escaped, write_quoted}
use propsim.History.Edn.Write.{write_edn}
use propsim.History.Edn.Read.{unescape}
use propsim.History.Edn.Strings.{escaped-cases}
use propsim.History.Edn.Numbers.{IsPlain, show_int-IsPlain}
use propsim.History.Json.Write.{write_keyword, write_json_key}
use propsim.History.Json.Read.{string_step, string_from, parse_string, plain}

string_from-escape :
    (e : ℕ) (s : Text)
    → leb 128 e ≡ false
    → (e == b'u') ≡ false
    → string_from (b'\\' ∷ e ∷ s) plain
      ≡ (string_from s plain >>= λ (out, rest). ok (unescape e ∷ out, rest))
unfolding string_from string_step
string_from-escape e s h k = rw (k, h) refl

string_from-itself :
    (c : ℕ) (s : Text)
    → (c == b'"') ≡ false
    → (c == b'\\') ≡ false
    → string_from (c ∷ s) plain ≡ (string_from s plain >>= λ (out, rest). ok (c ∷ out, rest))
unfolding string_from string_step
string_from-itself c s h k = rw (h, k) refl

string_from-quote : (rest : Text) → string_from (b'"' ∷ rest) plain ≡ ok ([], rest)
unfolding string_from string_step
string_from-quote rest = refl

string_from-push_escaped :
    (s rest : Text) → string_from (push_escaped s ++ b'"' ∷ rest) plain ≡ ok (s, rest)
unfolding push_escaped
string_from-push_escaped [] rest = string_from-quote rest
string_from-push_escaped (c ∷ s) rest =
    let ih = string_from-push_escaped s rest in
    let t = push_escaped s ++ b'"' ∷ rest in
    elim (escaped-cases c) [
      | inl (e, w, small, no_u, back) ↦ rw (w, string_from-escape e t small no_u, ih, back) refl
      | inr (w, quote, slash) ↦ rw (w, string_from-itself c t quote slash, ih) refl
    ]

-- What is between the quotes is read back.
pub parse_string-push_escaped :
    (s rest : Text) → parse_string (push_escaped s ++ b'"' ∷ rest) ≡ ok (s, rest)
unfolding parse_string
parse_string-push_escaped s rest = string_from-push_escaped s rest

push_escaped-plain : (s : Text) → All IsPlain s → push_escaped s ≡ s
unfolding push_escaped escaped
push_escaped-plain [] h = refl
push_escaped-plain (c ∷ s) h =
    let q : (c == b'"') ≡ false = ground arith in
    let b : (c == b'\\') ≡ false = ground arith in
    let n : (c == b'\n') ≡ false = ground arith in
    let r : (c == b'\r') ≡ false = ground arith in
    let t : (c == b'\t') ≡ false = ground arith in rw (q, b, n, r, t, push_escaped-plain s h.1) refl

module _ (F : FloatText) where
  -- The text of a key between the quotes.
  unfoldable pub key_text : Value → Text
  key_text (str s) = s
  key_text (keyword k) = b':' ∷ k
  key_text (int i) = show_int i
  key_text other = write_edn F other

  pub write_json_key-quoted : (k : Value) → write_json_key F k ≡ write_quoted (key_text k)
  unfolding write_json_key key_text write_quoted write_keyword push_escaped escaped
  write_json_key-quoted (str s) = refl
  write_json_key-quoted (keyword k) = refl
  write_json_key-quoted (int i) = rw (push_escaped-plain (show_int i) (show_int-IsPlain i)) refl
  write_json_key-quoted _ = refl
