-- ===== src/History/Json/NotFinite.antt =====
-- What becomes of a float that is not finite.
use propsim.Base.{◌≡◌, refl, false, ℕ, text_eq, ◌∷◌, []}
use propsim.Float64.{is_finite}
use propsim.Texts.{strip_prefix}
use propsim.History.Values.{float, nil}
use propsim.History.Parsed.{ok, err, json_invalid_literal}
use propsim.History.Edn.{FloatText, is_delim, is_space}
use propsim.History.Edn.Write.{write_edn}
use propsim.History.Edn.Read
use propsim.History.Edn.Read.{take_token, atom_value, parse_atom}
use propsim.History.Edn.Numbers.{fmt_float-nil}
use propsim.History.Json.Write.{write_json}
use propsim.History.Json.Read.{skip_ws, lead, parse_keyword_literal, parse_value, parse_json}

parse_json-nil : (F : FloatText) → parse_json F (b'n' ∷ b'i' ∷ b'l' ∷ []) ≡ err json_invalid_literal
unfolding parse_json parse_value skip_ws is_space lead parse_keyword_literal strip_prefix
parse_json-nil F = refl

parse_edn-nil : (F : FloatText) → Read.parse_edn F (b'n' ∷ b'i' ∷ b'l' ∷ []) ≡ ok nil
unfolding Read.parse_edn Read.parse_value Read.skip_ws Read.skip_from Read.skips is_space Read.lead
    parse_atom take_token is_delim atom_value text_eq Read.finish
parse_edn-nil F = refl

-- A float that is not finite is written as `nil`: EDN reads it back as nil, and the reader of JSON
-- refuses it.
pub write_json-not_finite :
    (F : FloatText) (f : ℕ)
    → is_finite f ≡ false
    → (parse_json F (write_json F (float f)) ≡ err json_invalid_literal)
      × (Read.parse_edn F (write_edn F (float f)) ≡ ok nil)
unfolding write_json write_edn
write_json-not_finite F f h =
    (rw (fmt_float-nil F f h) (parse_json-nil F), rw (fmt_float-nil F f h) (parse_edn-nil F))
