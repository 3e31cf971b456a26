-- ===== src/History/Edn/Write.antt =====
-- The writer of EDN.
use propsim.Base.{Bool, true, false, Text, [], ◌∷◌, ◌++◌, if◌then◌else◌, codes}
use propsim.Numerals.{show_int}
use propsim.History.Values.{
  Value, nil, bool, int, float, str, keyword, list, map, Values, empty, cons, Pairs, end, pair,
}
use propsim.History.Edn.{FloatText, fmt_float, write_quoted}

-- What stands before an item, or before a pair.

abbrev pub gap : Bool → Text
gap first = if first then [] else b' ' ∷ []

abbrev pub pair_gap : Bool → Text
pair_gap first = if first then [] else codes ", "

module _ (F : FloatText) where
  unfoldable mutual
    pub write_edn : Value → Text
    write_edn nil = codes "nil"
    write_edn (bool b) = if b then codes "true" else codes "false"
    write_edn (int i) = show_int i
    write_edn (float f) = fmt_float F f
    write_edn (str s) = write_quoted s
    write_edn (keyword k) = b':' ∷ k
    write_edn (list items) = b'[' ∷ write_items items true ++ b']' ∷ []
    write_edn (map pairs) = b'{' ∷ write_pairs pairs true ++ b'}' ∷ []

    pub write_items : Values → Bool → Text
    write_items empty first = []
    write_items (cons it items) first = gap first ++ (write_edn it ++ write_items items false)

    pub write_pairs : Pairs → Bool → Text
    write_pairs end first = []
    write_pairs (pair k val pairs) first =
        pair_gap first ++ (write_edn k ++ b' ' ∷ (write_edn val ++ write_pairs pairs false))
