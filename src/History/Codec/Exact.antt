-- ===== src/History/Codec/Exact.antt =====
-- The histories that both formats keep as they are.
use propsim.Base.{◌^◌, ◌<◌, ◌≡◌, refl, ap, ◌∙◌, true, false, ◌==◌, Text, [], ◌∷◌, All, map}
use propsim.Float64.{is_finite}
use propsim.Numerals.Correct.{IsI64}
use propsim.History.{OpEntry, History}
use propsim.History.Values.{
  Value, nil, bool, int, float, str, keyword, list, map as object, Values, empty, cons, Pairs, end,
  pair,
}
use propsim.History.Parsed.{ok}
use propsim.History.Edn.{FloatText}
use propsim.History.Edn.Numbers.{IsFloatText}
use propsim.History.Edn.Writable.{
  IsWritable, AreWritable, ArePairsWritable, readable, readable_items, readable_pairs,
}
use propsim.History.Json.{str_to_value}
use propsim.History.Json.Strings.{key_text}
use propsim.History.Json.Values.{
  IsJsonWritable, AreJsonWritable, ArePairsJsonWritable, through_json, items_through_json,
  pairs_through_json,
}
use propsim.History.Codec.{to_jepsen_edn, to_jepsen_json, from_jepsen}
use propsim.History.Codec.RoundTrip.{IsSaveable, readable_entry, from_jepsen-to_jepsen_edn}
use propsim.History.Codec.JsonRoundTrip.{
  IsJsonSaveable, entry_through_json, from_jepsen-to_jepsen_json,
}

-- A string that does not begin with a colon.

abbrev pub IsPlainText : Text → Type 0
IsPlainText [] = Unit
IsPlainText (c ∷ s) = (c == b':') ≡ false

-- A key of a map: such a string, or a keyword.
abbrev pub IsKey : Value → Type 0
IsKey (str s) = IsPlainText s
IsKey (keyword k) = IsWritable (keyword k)
IsKey _ = ⊥

-- Integers in range, finite floats, strings that do not begin with a colon, keywords that are
-- tokens, and maps with strings or keywords for keys.
unfoldable mutual
  pub IsPortable : Value → Type 0
  IsPortable nil = Unit
  IsPortable (bool b) = Unit
  IsPortable (int i) = IsI64 i
  IsPortable (float f) = is_finite f ≡ true
  IsPortable (str s) = IsPlainText s
  IsPortable (keyword k) = IsWritable (keyword k)
  IsPortable (list items) = ArePortable items
  IsPortable (object pairs) = ArePairsPortable pairs

  pub ArePortable : Values → Type 0
  ArePortable empty = Unit
  ArePortable (cons v items) = IsPortable v × ArePortable items

  pub ArePairsPortable : Pairs → Type 0
  ArePairsPortable end = Unit
  ArePairsPortable (pair k v pairs) = IsKey k × IsPortable v × ArePairsPortable pairs

str_to_value-str : (s : Text) → IsPlainText s → str_to_value s ≡ str s
unfolding str_to_value
str_to_value-str [] h = refl
str_to_value-str (c ∷ s) h = rw h refl

key-IsWritable : (k : Value) → IsKey k → IsWritable k
unfolding IsWritable
key-IsWritable (str s) h = tt
key-IsWritable (keyword []) h = absurd h
key-IsWritable (keyword (c ∷ cs)) h = h
key-IsWritable _ h = absurd h

key-readable : (k : Value) → IsKey k → readable k ≡ k
unfolding readable
key-readable (str s) h = refl
key-readable (keyword k) h = refl
key-readable _ h = absurd h

mutual
  unfolding IsWritable IsPortable readable

  portable-IsWritable : (v : Value) → IsPortable v → IsWritable v × (readable v ≡ v)
  portable-IsWritable nil h = (tt, refl)
  portable-IsWritable (bool b) h = (tt, refl)
  portable-IsWritable (int i) h = (h, refl)
  portable-IsWritable (float f) h = (tt, rw h refl)
  portable-IsWritable (str s) h = (tt, refl)
  portable-IsWritable (keyword k) h = (h, refl)
  portable-IsWritable (list items) h =
      let (w, e) = portable-AreWritable items h in (w, ap (λ x. list x) e)
  portable-IsWritable (object pairs) h =
      let (w, e) = portable-ArePairsWritable pairs h in (w, ap (λ x. object x) e)

  portable-AreWritable :
      (items : Values) → ArePortable items → AreWritable items × (readable_items items ≡ items)
  portable-AreWritable empty h = (tt, refl)
  portable-AreWritable (cons v items) h =
      let (w, e) = portable-IsWritable v h.0 in
      let (w', e') = portable-AreWritable items h.1 in ((w, w'), rw (e, e') refl)

  portable-ArePairsWritable :
      (pairs : Pairs)
      → ArePairsPortable pairs
      → ArePairsWritable pairs × (readable_pairs pairs ≡ pairs)
  portable-ArePairsWritable end h = (tt, refl)
  portable-ArePairsWritable (pair k v pairs) h =
      let (w, e) = portable-IsWritable v h.1 in
      let (w', e') = portable-ArePairsWritable pairs h.2 in
      ((key-IsWritable k h.0, w, w'), rw (key-readable k h.0, e, e') refl)

module _ (F : FloatText) where
  key-through_json : (k : Value) → IsKey k → str_to_value (key_text F k) ≡ k
  unfolding key_text str_to_value
  key-through_json (str s) h = str_to_value-str s h
  key-through_json (keyword k) h = refl
  key-through_json _ h = absurd h

  mutual
    unfolding IsJsonWritable IsPortable through_json

    portable-IsJsonWritable : (v : Value) → IsPortable v → IsJsonWritable v × (through_json F v ≡ v)
    portable-IsJsonWritable nil h = (tt, refl)
    portable-IsJsonWritable (bool b) h = (tt, refl)
    portable-IsJsonWritable (int i) h = (h, refl)
    portable-IsJsonWritable (float f) h = (h, refl)
    portable-IsJsonWritable (str s) h = (tt, str_to_value-str s h)
    portable-IsJsonWritable (keyword k) h = (tt, refl)
    portable-IsJsonWritable (list items) h =
        let (w, e) = portable-AreJsonWritable items h in (w, ap (λ x. list x) e)
    portable-IsJsonWritable (object pairs) h =
        let (w, e) = portable-ArePairsJsonWritable pairs h in (w, ap (λ x. object x) e)

    portable-AreJsonWritable :
        (items : Values)
        → ArePortable items
        → AreJsonWritable items × (items_through_json F items ≡ items)
    portable-AreJsonWritable empty h = (tt, refl)
    portable-AreJsonWritable (cons v items) h =
        let (w, e) = portable-IsJsonWritable v h.0 in
        let (w', e') = portable-AreJsonWritable items h.1 in ((w, w'), rw (e, e') refl)

    portable-ArePairsJsonWritable :
        (pairs : Pairs)
        → ArePairsPortable pairs
        → ArePairsJsonWritable pairs × (pairs_through_json F pairs ≡ pairs)
    portable-ArePairsJsonWritable end h = (tt, refl)
    portable-ArePairsJsonWritable (pair k v pairs) h =
        let (w, e) = portable-IsJsonWritable v h.1 in
        let (w', e') = portable-ArePairsJsonWritable pairs h.2 in
        ((w, w'), rw (key-through_json k h.0, e, e') refl)

-- The numbers of an entry are in the ranges of their types, the name of its function is a token,
-- and its value is portable.
abbrev pub IsPortableEntry : OpEntry → Type 0
IsPortableEntry e =
    (e.index < 2 ^ 64)
    × (e.process < 2 ^ 64)
    × IsI64 e.time.nanos
    × IsWritable (keyword e.f)
    × IsPortable e.value

readable_entries :
    (h : History) → All IsPortableEntry h → All IsSaveable h × (map readable_entry h ≡ h)
unfolding readable_entry
readable_entries [] k = (tt, refl)
readable_entries (e ∷ h) k =
    let (w, same) = portable-IsWritable e.value (k.0.4) in
    let (ws, sames) = readable_entries h k.1 in
    (((k.0.0, k.0.1, k.0.2, k.0.3, w), ws), rw (same, sames) refl)

entries_through_json :
    (F : FloatText) (h : History)
    → All IsPortableEntry h
    → All IsJsonSaveable h × (map (entry_through_json F) h ≡ h)
unfolding entry_through_json
entries_through_json F [] k = (tt, refl)
entries_through_json F (e ∷ h) k =
    let (w, same) = portable-IsJsonWritable F e.value (k.0.4) in
    let (ws, sames) = entries_through_json F h k.1 in
    (((k.0.0, k.0.1, k.0.2, w), ws), rw (same, sames) refl)

-- A history with numbers in range, finite floats, tokens for functions and keywords, strings that
-- do not begin with a colon, and strings or keywords for the keys of its maps is read back exactly,
-- whichever of the two formats it was saved in.
pub from_jepsen-exact :
    (F : FloatText) (L : IsFloatText F) (h : History)
    → All IsPortableEntry h
    → (from_jepsen F (to_jepsen_edn F h) ≡ ok h) × (from_jepsen F (to_jepsen_json F h) ≡ ok h)
from_jepsen-exact F L h k =
    let (saved, same) = readable_entries h k in
    let (saved', same') = entries_through_json F h k in
    (
      from_jepsen-to_jepsen_edn F L h saved ∙ ap (λ x. ok x) same,
      from_jepsen-to_jepsen_json F L h saved' ∙ ap (λ x. ok x) same',
    )
