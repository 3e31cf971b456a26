-- ===== src/History/Json/Write.antt =====
-- The writer of JSON.
use propsim.Base.{Bool, true, false, Text, [], ◌∷◌, ◌++◌, if◌then◌else◌, codes}
use propsim.Numerals.{show_int}
use propsim.History.Values.{
  Value, nil, bool, int, float, str, keyword, list, map, Values, empty, cons, Pairs, end, pair,
}
use propsim.History.Edn.{FloatText, fmt_float, write_quoted, push_escaped}
use propsim.History.Edn.Write.{write_edn}

abbrev pub comma : Bool → Text
comma first = if first then [] else b',' ∷ []

-- A keyword as a string.
unfoldable pub write_keyword : Text → Text
write_keyword k = b'"' ∷ b':' ∷ (push_escaped k ++ b'"' ∷ [])

module _ (F : FloatText) where
  -- A key is a string; what is neither a string, a keyword nor an integer is written as EDN.
  unfoldable pub write_json_key : Value → Text
  write_json_key (str s) = write_quoted s
  write_json_key (keyword k) = write_keyword k
  write_json_key (int i) = b'"' ∷ (show_int i ++ b'"' ∷ [])
  write_json_key other = write_quoted (write_edn F other)

  unfoldable mutual
    pub write_json : Value → Text
    write_json nil = codes "null"
    write_json (bool b) = if b then codes "true" else codes "false"
    write_json (int i) = show_int i
    write_json (float f) = fmt_float F f
    write_json (str s) = write_quoted s
    write_json (keyword k) = write_keyword k
    write_json (list items) = b'[' ∷ (write_items items true ++ b']' ∷ [])
    write_json (map pairs) = b'{' ∷ (write_pairs pairs true ++ b'}' ∷ [])

    pub write_items : Values → Bool → Text
    write_items empty first = []
    write_items (cons it items) first = comma first ++ (write_json it ++ write_items items false)

    pub write_pairs : Pairs → Bool → Text
    write_pairs end first = []
    write_pairs (pair k val pairs) first =
        comma first ++ (write_json_key k ++ b':' ∷ (write_json val ++ write_pairs pairs false))
