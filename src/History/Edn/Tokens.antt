-- ===== src/History/Edn/Tokens.antt =====
-- Tokens and the white space around them.
use propsim.Base.{
  ==_iff, ℕ, suc, ◌≡◌, refl, ap, ◌∙◌, sym, inl, inr, Bool-cases, arith, Bool, true, false, ◌==◌,
  Text, [], ◌∷◌, ◌++◌, All, ◌&&◌, not,
}
use propsim.History.Values.{Value}
use propsim.History.Parsed.{ok}
use propsim.History.Edn.{FloatText, is_delim, is_space}
use propsim.History.Edn.Write.{gap, pair_gap}
use propsim.History.Edn.Read.{
  ahead, more, skips, skip_from, skip_ws, take_token, atom_value, parse_atom, lead, opens_atom,
  parse_value,
}

-- What a token is made of.

abbrev pub IsTokenChar : ℕ → Type 0
IsTokenChar c = is_delim c ≡ false

-- The text does not go on with a token.
abbrev pub Ends : Text → Type 0
Ends [] = Unit
Ends (c ∷ s) = is_delim c ≡ true

-- The first character of a value's text.
abbrev pub starts : ℕ → Bool
starts c = not (skips false c) && not (c == b']') && not (c == b'}')

abbrev pub StartsValue : Text → Type 0
StartsValue [] = ⊥
StartsValue (c ∷ cs) = starts c ≡ true

pub StartsValue-append : (s t : Text) → StartsValue s → StartsValue (s ++ t)
StartsValue-append [] t h = absurd h
StartsValue-append (c ∷ cs) t h = h

pub take_token-append :
    (tok rest : Text) → All IsTokenChar tok → Ends rest → take_token (tok ++ rest) ≡ (tok, rest)
unfolding take_token
take_token-append [] [] h e = refl
take_token-append [] (c ∷ s) h e = rw (take_token, e) refl
take_token-append (c ∷ cs) rest h e = rw (take_token, h.0, take_token-append cs rest h.1 e) refl

pub skip_ws-token : (c : ℕ) (s : Text) → skips false c ≡ false → skip_ws (c ∷ s) ≡ c ∷ s
unfolding skip_ws skip_from
skip_ws-token c s h = rw (skip_from, h) refl

pub skip_ws-starts : (w : Text) → StartsValue w → skip_ws w ≡ w
skip_ws-starts [] h = absurd h
skip_ws-starts (c ∷ s) h = skip_ws-token c s (ground (arith, h))

pub skip_ws-gap : (first : Bool) (w : Text) → StartsValue w → skip_ws (gap first ++ w) ≡ w
unfolding skip_ws skip_from skips is_space
skip_ws-gap true w h = skip_ws-starts w h
skip_ws-gap false w h = skip_ws-starts w h

pub skip_ws-pair_gap : (first : Bool) (w : Text) → StartsValue w → skip_ws (pair_gap first ++ w) ≡ w
unfolding skip_ws skip_from skips is_space
skip_ws-pair_gap true w h = skip_ws-starts w h
skip_ws-pair_gap false w h = skip_ws-starts w h

-- No bracket that closes a collection starts a value.
pub ahead-starts :
    (close : ℕ) (w : Text) → starts close ≡ false → StartsValue w → ahead close w ≡ more w
unfolding ahead
ahead-starts close [] n h = absurd h
ahead-starts close (c ∷ s) n h = elim (Bool-cases (c == close)) [
  | inl e ↦ let bad : true ≡ false = sym h ∙ ap starts ((==_iff c close).0 e) ∙ n in cc
  | inr e ↦ rw (e, ahead) refl
]

token_char-skips : (c : ℕ) → IsTokenChar c → skips false c ≡ false
unfolding is_delim skips is_space
token_char-skips c h = ground arith

token_char-lead :
    (c : ℕ) (s : Text) → IsTokenChar c → (c == b':') ≡ false → lead (c ∷ s) ≡ opens_atom (c ∷ s)
unfolding is_delim lead
token_char-lead c s h k = ground arith

module _ (F : FloatText) where
  -- A token that is no keyword is read by itself, with any fuel.
  pub parse_value-token :
      (fuel c : ℕ) (cs rest : Text) (v : Value)
      → All IsTokenChar (c ∷ cs)
      → (c == b':') ≡ false
      → Ends rest
      → atom_value F (c ∷ cs) ≡ ok v
      → parse_value F (suc fuel) (c ∷ cs ++ rest) ≡ ok (v, rest)
  unfolding parse_value parse_atom
  parse_value-token fuel c cs rest v h k e a =
      rw
        (
          skip_ws-token c (cs ++ rest) (token_char-skips c h.0),
          token_char-lead c (cs ++ rest) h.0 k,
          take_token-append (c ∷ cs) rest h e,
          a,
        )
        refl
