-- ===== src/History/Codec/JsonRoundTrip.antt =====
-- A history that is saved as JSON is read back.
use propsim.Base.{◌^◌, ◌<◌, ◌≡◌, refl, ap, ◌∙◌, Bool, true, false, [], ◌∷◌, ◌++◌, All, text_eq, map}
use propsim.Numerals.Correct.{IsI64}
use propsim.Texts.{is_white, trim_start}
use propsim.History.{OpEntry, History}
use propsim.History.Values.{Values, list, empty, cons}
use propsim.History.Parsed.{ok}
use propsim.History.Edn.{FloatText}
use propsim.History.Edn.Numbers.{IsFloatText}
use propsim.History.Edn.{is_space}
use propsim.History.Edn.Read.{
  parse_value, skip_ws, skip_from, skips, lead, ahead, finish, parse_edn,
}
use propsim.History.Json.{str_to_value}
use propsim.History.Json.Write.{comma, write_json, write_items, write_keyword, write_json_key}
use propsim.History.Json.Read.{parse_json}
use propsim.History.Json.Strings.{key_text}
use propsim.History.Json.Values.{IsJsonWritable, AreJsonWritable, through_json, items_through_json}
use propsim.History.Json.RoundTrip.{parse_json-write_json}
use propsim.History.Codec.{
  entry_to_value, get, is_key, require_int, clock_of, kind_of, function_of, entry_of,
  value_to_entry, collect_entries, entries_of, json_entries, to_jepsen_json, from_jepsen,
  starts_with, looks_like_json,
}
use propsim.History.Codec.RoundTrip.{
  as_u64-as_i64, as_i64-IsI64, clock_from_kw-clock_kw, from_keyword-kind_keyword,
}

-- The numbers of an entry are in the ranges of their types, and the floats of its value are finite.

abbrev pub IsJsonSaveable : OpEntry → Type 0
IsJsonSaveable e =
    (e.index < 2 ^ 64) × (e.process < 2 ^ 64) × IsI64 e.time.nanos × IsJsonWritable e.value

-- The entries of a history as one value.
values_of : History → Values
values_of [] = empty
values_of (e ∷ h) = cons (entry_to_value e) (values_of h)

module _ (F : FloatText) where
  -- The entry with what JSON keeps of its value.
  unfoldable pub entry_through_json : OpEntry → OpEntry
  entry_through_json e = record e { value = through_json F e.value }

  entry_to_value-IsJsonWritable :
      (e : OpEntry) → IsJsonSaveable e → IsJsonWritable (entry_to_value e)
  unfolding entry_to_value IsJsonWritable
  entry_to_value-IsJsonWritable e h =
      (as_i64-IsI64 e.index h.0, (h.2, (tt, (tt, (as_i64-IsI64 e.process h.1, (tt, (h.3, tt)))))))

  value_to_entry-through_json :
      (e : OpEntry)
      → IsJsonSaveable e
      → value_to_entry (through_json F (entry_to_value e)) ≡ ok (entry_through_json e)
  unfolding entry_to_value through_json value_to_entry entry_of get is_key text_eq require_int
      clock_of kind_of function_of entry_through_json key_text str_to_value
  value_to_entry-through_json e h =
      rw
        (
          clock_from_kw-clock_kw e.time.clock,
          from_keyword-kind_keyword e.kind,
          as_u64-as_i64 e.index h.0,
          as_u64-as_i64 e.process h.1,
        )
        refl

  entries-write_items :
      (h : History) (first : Bool) → json_entries F h first ≡ write_items F (values_of h) first
  unfolding json_entries write_json values_of
  entries-write_items [] first = refl
  entries-write_items (e ∷ h) first =
      ap (λ t. comma first ++ (write_json F (entry_to_value e) ++ t)) (entries-write_items h false)

  to_jepsen_json-write_json : (h : History) → to_jepsen_json F h ≡ write_json F (list (values_of h))
  unfolding to_jepsen_json write_json
  to_jepsen_json-write_json h = ap (λ t. b'[' ∷ (t ++ b']' ∷ [])) (entries-write_items h true)

  values_of-AreJsonWritable : (h : History) → All IsJsonSaveable h → AreJsonWritable (values_of h)
  unfolding values_of IsJsonWritable
  values_of-AreJsonWritable [] k = tt
  values_of-AreJsonWritable (e ∷ h) k =
      (entry_to_value-IsJsonWritable e k.0, values_of-AreJsonWritable h k.1)

  collect_entries-values_of :
      (h : History)
      → All IsJsonSaveable h
      → collect_entries (items_through_json F (values_of h)) ≡ ok (map entry_through_json h)
  unfolding values_of through_json collect_entries
  collect_entries-values_of [] k = refl
  collect_entries-values_of (e ∷ h) k =
      rw (value_to_entry-through_json e k.0, collect_entries-values_of h k.1) refl

  -- The array of a history without entries is read as EDN.
  read_empty : from_jepsen F (to_jepsen_json F []) ≡ ok []
  unfolding from_jepsen to_jepsen_json json_entries trim_start is_white starts_with looks_like_json
      parse_edn parse_value skip_ws skip_from skips is_space lead ahead finish entries_of
      collect_entries
  read_empty = refl

  -- Any other array is taken for JSON.
  looks_like_json-to_jepsen_json :
      (e : OpEntry) (h : History)
      → (trim_start (to_jepsen_json F (e ∷ h)) ≡ to_jepsen_json F (e ∷ h))
        × (starts_with b'[' (to_jepsen_json F (e ∷ h)) ≡ true)
        × (looks_like_json (to_jepsen_json F (e ∷ h)) ≡ true)
  unfolding to_jepsen_json json_entries write_json write_json_key write_keyword entry_to_value
      trim_start is_white starts_with looks_like_json
  looks_like_json-to_jepsen_json e h = (refl, refl, refl)

module _ (F : FloatText) (L : IsFloatText F) where
  -- A history that is saved as JSON, with numbers in range and finite floats, is read back entry by
  -- entry, with what JSON keeps of each value.
  pub from_jepsen-to_jepsen_json :
      (h : History)
      → All IsJsonSaveable h
      → from_jepsen F (to_jepsen_json F h) ≡ ok (map (entry_through_json F) h)
  unfolding from_jepsen entries_of through_json IsJsonWritable
  from_jepsen-to_jepsen_json [] k = read_empty F
  from_jepsen-to_jepsen_json (e ∷ h) k =
      let (trimmed, bracket, json) = looks_like_json-to_jepsen_json F e h in
      let text = to_jepsen_json-write_json F (e ∷ h) in
      let read =
        ap (parse_json F) text
        ∙ parse_json-write_json F L (list (values_of (e ∷ h)))
            (values_of-AreJsonWritable F (e ∷ h) k) in
      rw (trimmed, bracket, json, read) (collect_entries-values_of F (e ∷ h) k)
