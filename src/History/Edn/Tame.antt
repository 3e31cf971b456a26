-- ===== src/History/Edn/Tame.antt =====
-- What the parts of the reader of EDN do on a text that cannot make them panic.
use propsim.Base.{ℕ, ◌≡◌, arith, Bool-cases, inl, inr, Bool, true, false, ◌==◌, leb, Text, [], ◌∷◌}
use propsim.History.Values.{Value, Values, Pairs}
use propsim.History.Parsed.{Parsed, ok, ◌>>=◌, NoPanic, NoPanic-bind}
use propsim.History.Edn.{is_delim}
use propsim.History.Edn.Read.{
  skips, comment_after, skip_from, skip_ws, take_token, keyword_or_error, string_from, Lead,
  nothing, opens_map, opens_seq, opens_string, opens_keyword, opens_atom, lead, Ahead, at_end,
  closed, more, ahead, next_pair, next_item,
}

abbrev Follows : ℕ → Text → Type 0
Follows c [] = Unit
Follows c (d ∷ s) = (c == b'\\') ≡ true → leb 128 d ≡ false

-- No backslash stands before a character of several bytes.
abbrev pub IsTame : Text → Type 0
IsTame [] = Unit
IsTame (c ∷ s) = Follows c s × IsTame s

abbrev pub LeavesTame {ℓ} : {A : Type ℓ} → A × Text → Type 0
LeavesTame (a, rest) = IsTame rest

skip_from-IsTame : (b : Bool) (s : Text) → IsTame s → IsTame (skip_from b s)
unfolding skip_from
skip_from-IsTame b [] h = tt
skip_from-IsTame b (c ∷ s) h = elim (Bool-cases (skips b c)) [
  | inl e ↦ rw (e, skip_from) (skip_from-IsTame (comment_after b c) s h.1)
  | inr e ↦ rw (e, skip_from) h
]

pub skip_ws-IsTame : (s : Text) → IsTame s → IsTame (skip_ws s)
unfolding skip_ws
skip_ws-IsTame s h = skip_from-IsTame false s h

pub take_token-IsTame : (s : Text) → IsTame s → IsTame (take_token s).1
unfolding take_token
take_token-IsTame [] h = tt
take_token-IsTame (c ∷ s) h = elim (Bool-cases (is_delim c)) [
  | inl e ↦ rw (e, take_token) h
  | inr e ↦ rw (e, take_token) (take_token-IsTame s h.1)
]

module _ {ℓ κ} {A : Type ℓ} {B : Type κ} where
  pub NoPanic-map :
      (g : A → B) (r : Parsed (A × Text))
      → NoPanic LeavesTame r
      → NoPanic LeavesTame (r >>= λ (a, rest). ok (g a, rest))
  NoPanic-map g r h = NoPanic-bind LeavesTame LeavesTame r _ h λ (a, rest) k. k

-- Behind a backslash the text goes on with a character of one byte.
abbrev StartsShort : Bool → Text → Type 0
StartsShort false s = Unit
StartsShort true [] = Unit
StartsShort true (c ∷ s) = leb 128 c ≡ false

StartsShort-Follows : (c : ℕ) (s : Text) → (c == b'\\') ≡ true → Follows c s → StartsShort true s
StartsShort-Follows c [] e h = tt
StartsShort-Follows c (d ∷ s) e h = h e

pub string_from-NoPanic :
    (b : Bool) (s : Text) → StartsShort b s → IsTame s → NoPanic LeavesTame (string_from b s)
unfolding string_from
string_from-NoPanic false [] k h = tt
string_from-NoPanic true [] k h = tt
string_from-NoPanic true (c ∷ s) k h =
    rw (string_from, k) (NoPanic-map _ (string_from false s) (string_from-NoPanic false s tt h.1))
string_from-NoPanic false (c ∷ s) k h = elim (Bool-cases (c == b'"')) [
  | inl e ↦ rw (e, string_from) h.1
  | inr e ↦ elim (Bool-cases (c == b'\\')) [
    | inl e' ↦
        rw (e, string_from, e') (string_from-NoPanic true s (StartsShort-Follows c s e' h.0) h.1)
    | inr e' ↦
        rw (e, string_from, e')
          (NoPanic-map _ (string_from false s) (string_from-NoPanic false s tt h.1))
  ]
]

pub keyword_or_error-NoPanic :
    (tok rest : Text) → IsTame rest → NoPanic LeavesTame (keyword_or_error tok rest)
keyword_or_error-NoPanic [] rest h = tt
keyword_or_error-NoPanic (c ∷ cs) rest h = h

abbrev pub LeadTame : Lead → Type 0
LeadTame nothing = Unit
LeadTame (opens_map t) = IsTame t
LeadTame (opens_seq close t) = IsTame t
LeadTame (opens_string t) = IsTame t
LeadTame (opens_keyword t) = IsTame t
LeadTame (opens_atom t) = IsTame t

pub lead-LeadTame : (s : Text) → IsTame s → LeadTame (lead s)
unfolding lead
lead-LeadTame [] h = tt
lead-LeadTame (c ∷ s) h =
    let whole : IsTame (c ∷ s) = h in let there : IsTame s = h.1 in ground arith

abbrev pub AheadTame : Ahead → Type 0
AheadTame at_end = Unit
AheadTame (closed t) = IsTame t
AheadTame (more t) = IsTame t

pub ahead-AheadTame : (close : ℕ) (s : Text) → IsTame s → AheadTame (ahead close s)
unfolding ahead
ahead-AheadTame close [] h = tt
ahead-AheadTame close (c ∷ s) h = elim (Bool-cases (c == close)) [
  | inl e ↦ rw (e, ahead) h.1
  | inr e ↦ rw (e, ahead) h
]

pub next_item-NoPanic :
    (rv : Text → Parsed (Value × Text)) (ri : Text → Parsed (Values × Text)) (a : Ahead)
    → ((t : Text) → IsTame t → NoPanic LeavesTame (rv t))
    → ((t : Text) → IsTame t → NoPanic LeavesTame (ri t))
    → AheadTame a
    → NoPanic LeavesTame (next_item rv ri a)
next_item-NoPanic rv ri at_end hv hi w = tt
next_item-NoPanic rv ri (closed rest) hv hi w = w
next_item-NoPanic rv ri (more t) hv hi w =
    NoPanic-bind LeavesTame LeavesTame (rv t) _ (hv t w)
      λ (v, t') k. NoPanic-map _ (ri t') (hi t' k)

pub next_pair-NoPanic :
    (rv : Text → Parsed (Value × Text)) (rp : Text → Parsed (Pairs × Text)) (a : Ahead)
    → ((t : Text) → IsTame t → NoPanic LeavesTame (rv t))
    → ((t : Text) → IsTame t → NoPanic LeavesTame (rp t))
    → AheadTame a
    → NoPanic LeavesTame (next_pair rv rp a)
next_pair-NoPanic rv rp at_end hv hp w = tt
next_pair-NoPanic rv rp (closed rest) hv hp w = w
next_pair-NoPanic rv rp (more t) hv hp w =
    NoPanic-bind LeavesTame LeavesTame (rv t) _ (hv t w) λ (k, t') h.
      NoPanic-bind LeavesTame LeavesTame (rv t') _ (hv t' h)
        λ (v, t'') h'. NoPanic-map _ (rp t'') (hp t'' h')
