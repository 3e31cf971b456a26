-- ===== src/History/Edn/Strings.antt =====
-- Strings are read back as they were written.
use propsim.Base.{
  ℕ, ◌≡◌, refl, sym, subst, ◌⊎◌, inl, inr, Bool-cases, arith, true, false, ◌==◌, leb, Text, [], ◌∷◌,
  ◌++◌, ==_iff,
}
use propsim.History.Parsed.{ok, ◌>>=◌}
use propsim.History.Edn.{escaped, push_escaped}
use propsim.History.Edn.Read.{unescape, string_from}

-- A character is escaped by a backslash, or stands for itself.

abbrev pub IsEscape : ℕ → Type 0
IsEscape c =
    (e : ℕ) × (escaped c ≡ b'\\' ∷ e ∷ [])
    × (leb 128 e ≡ false)
    × ((e == b'u') ≡ false)
    × (unescape e ≡ c)

abbrev pub IsItself : ℕ → Type 0
IsItself c = (escaped c ≡ c ∷ []) × ((c == b'"') ≡ false) × ((c == b'\\') ≡ false)

IsEscape-subst : (c d : ℕ) → (c == d) ≡ true → IsEscape d → IsEscape c
IsEscape-subst c d h k = subst IsEscape (sym ((==_iff c d).0 h)) k

pub escaped-cases : (c : ℕ) → IsEscape c ⊎ IsItself c
unfolding escaped unescape
escaped-cases c = elim (Bool-cases (c == b'"')) [
  | inl e ↦ inl (IsEscape-subst c b'"' e (b'"', refl, refl, refl, refl))
  | inr e1 ↦ elim (Bool-cases (c == b'\\')) [
    | inl e ↦ inl (IsEscape-subst c b'\\' e (b'\\', refl, refl, refl, refl))
    | inr e2 ↦ elim (Bool-cases (c == b'\n')) [
      | inl e ↦ inl (IsEscape-subst c b'\n' e (b'n', refl, refl, refl, refl))
      | inr e3 ↦ elim (Bool-cases (c == b'\r')) [
        | inl e ↦ inl (IsEscape-subst c b'\r' e (b'r', refl, refl, refl, refl))
        | inr e4 ↦ elim (Bool-cases (c == b'\t')) [
          | inl e ↦ inl (IsEscape-subst c b'\t' e (b't', refl, refl, refl, refl))
          | inr e5 ↦ inr (ground arith, e1, e2)
        ]
      ]
    ]
  ]
]

string_from-escape :
    (e : ℕ) (s : Text)
    → leb 128 e ≡ false
    → string_from false (b'\\' ∷ e ∷ s)
      ≡ (string_from false s >>= λ (out, rest). ok (unescape e ∷ out, rest))
unfolding string_from
string_from-escape e s h = rw (string_from, h) refl

-- What was escaped is read back, up to the closing quote.
pub string_from-push_escaped :
    (s rest : Text) → string_from false (push_escaped s ++ b'"' ∷ rest) ≡ ok (s, rest)
unfolding push_escaped string_from
string_from-push_escaped [] rest = refl
string_from-push_escaped (c ∷ s) rest =
    let ih = string_from-push_escaped s rest in
    elim (escaped-cases c) [
      | inl (e, w, small, no_u, back) ↦
          rw (w, string_from-escape e (push_escaped s ++ b'"' ∷ rest) small, ih, back) refl
      | inr (w, quote, slash) ↦ rw (w, string_from, quote, slash, ih) refl
    ]
