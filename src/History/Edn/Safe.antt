-- ===== src/History/Edn/Safe.antt =====
-- When the reader of EDN cannot panic.
use propsim.Base.{
  ℕ, zero, suc, ◌+◌, ◌*◌, ◌≢◌, arith, false, Text, [], ◌∷◌, length, subst, Option, none, some,
}
use propsim.Numerals.{parse_i64}
use propsim.History.Values.{ℤ, Value, Values, Pairs}
use propsim.History.Parsed.{Parsed, panicked, NoPanic, NoPanic-bind}
use propsim.History.Edn.{FloatText}
use propsim.History.Edn.Read.{
  skip_ws, take_token, parse_keyword, int_or_float, float_or_error, trim_suffix, atom_value,
  parse_atom, string_from, parse_string, Lead, nothing, opens_map, opens_seq, opens_string,
  opens_keyword, opens_atom, lead, ahead, read_lead, parse_value, parse_pairs, parse_items, finish,
  parse_edn,
}
use propsim.History.Edn.Tame.{
  IsTame, LeavesTame, LeadTame, skip_ws-IsTame, take_token-IsTame, NoPanic-map, string_from-NoPanic,
  keyword_or_error-NoPanic, lead-LeadTame, ahead-AheadTame, next_item-NoPanic, next_pair-NoPanic,
}

module _ (F : FloatText) where
  float_or_error-NoPanic :
      (tok : Text) (o : Option ℕ) → NoPanic (λ _. Unit {0}) (float_or_error F tok o)
  float_or_error-NoPanic tok none = tt
  float_or_error-NoPanic tok (some f) = tt

  int_or_float-NoPanic :
      (tok : Text) (o : Option ℤ) → NoPanic (λ _. Unit {0}) (int_or_float F tok o)
  int_or_float-NoPanic tok none = float_or_error-NoPanic tok (FloatText.parse F (trim_suffix tok))
  int_or_float-NoPanic tok (some i) = tt

  atom_value-NoPanic : (tok : Text) → NoPanic (λ _. Unit {0}) (atom_value F tok)
  unfolding atom_value
  atom_value-NoPanic tok = ground (arith, int_or_float-NoPanic tok (parse_i64 tok))

  read_lead-NoPanic :
      (rp : Text → Parsed (Pairs × Text)) (ri : ℕ → Text → Parsed (Values × Text)) (l : Lead)
      → ((t : Text) → IsTame t → NoPanic LeavesTame (rp t))
      → ((close : ℕ) (t : Text) → IsTame t → NoPanic LeavesTame (ri close t))
      → LeadTame l
      → NoPanic LeavesTame (read_lead F rp ri l)
  unfolding parse_string parse_keyword parse_atom
  read_lead-NoPanic rp ri nothing hp hi w = tt
  read_lead-NoPanic rp ri (opens_map t) hp hi w = NoPanic-map _ (rp t) (hp t w)
  read_lead-NoPanic rp ri (opens_seq close t) hp hi w = NoPanic-map _ (ri close t) (hi close t w)
  read_lead-NoPanic rp ri (opens_string t) hp hi w =
      NoPanic-map _ (string_from false t) (string_from-NoPanic false t tt w)
  read_lead-NoPanic rp ri (opens_keyword t) hp hi w =
      keyword_or_error-NoPanic (take_token t).0 (take_token t).1 (take_token-IsTame t w)
  read_lead-NoPanic rp ri (opens_atom t) hp hi w =
      NoPanic-bind (λ _. Unit {0}) LeavesTame (atom_value F (take_token t).0) _
        (atom_value-NoPanic (take_token t).0) λ v _. take_token-IsTame t w

  mutual
    unfolding parse_value

    parse_value-NoPanic :
        (fuel : ℕ) (s : Text) → IsTame s → NoPanic LeavesTame (parse_value F fuel s)
    parse_value-NoPanic zero s h = tt
    parse_value-NoPanic (suc fuel) s h =
        read_lead-NoPanic _ _ (lead (skip_ws s)) (λ t k. parse_pairs-NoPanic fuel t k)
          (λ close t k. parse_items-NoPanic fuel close t k)
          (lead-LeadTame (skip_ws s) (skip_ws-IsTame s h))

    parse_pairs-NoPanic :
        (fuel : ℕ) (s : Text) → IsTame s → NoPanic LeavesTame (parse_pairs F fuel s)
    parse_pairs-NoPanic zero s h = tt
    parse_pairs-NoPanic (suc fuel) s h =
        next_pair-NoPanic _ _ (ahead b'}' (skip_ws s)) (λ t k. parse_value-NoPanic fuel t k)
          (λ t k. parse_pairs-NoPanic fuel t k)
          (ahead-AheadTame b'}' (skip_ws s) (skip_ws-IsTame s h))

    parse_items-NoPanic :
        (fuel close : ℕ) (s : Text) → IsTame s → NoPanic LeavesTame (parse_items F fuel close s)
    parse_items-NoPanic zero close s h = tt
    parse_items-NoPanic (suc fuel) close s h =
        next_item-NoPanic _ _ (ahead close (skip_ws s)) (λ t k. parse_value-NoPanic fuel t k)
          (λ t k. parse_items-NoPanic fuel close t k)
          (ahead-AheadTame close (skip_ws s) (skip_ws-IsTame s h))

  finish-NoPanic : (s : Text) (v : Value) (rest : Text) → NoPanic (λ _. Unit {0}) (finish s v rest)
  unfolding finish
  finish-NoPanic s v [] = tt
  finish-NoPanic s v (c ∷ rest) = tt

  -- The reader of EDN does not panic on a text in which no backslash stands before a character that
  -- takes several bytes.
  pub parse_edn-no_panic : (s : Text) → IsTame s → parse_edn F s ≢ panicked
  unfolding parse_edn
  parse_edn-no_panic s h e = subst (NoPanic (λ _. Unit {0})) e (
      NoPanic-bind LeavesTame (λ _. Unit {0}) (parse_value F (2 * length s + 1) (skip_ws s)) _
        (parse_value-NoPanic (2 * length s + 1) (skip_ws s) (skip_ws-IsTame s h))
        λ (v, rest) _. finish-NoPanic s v (skip_ws rest))
