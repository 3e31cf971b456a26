-- ===== src/History/Codec/Lines.antt =====
-- What is written as EDN stands on one line, and lines are told apart again.
use propsim.Base.{
  ℕ, ◌≡◌, refl, arith, inl, inr, Bool, true, false, Bool-cases, ◌==◌, ◌&&◌, not, Text, [], ◌∷◌,
  ◌++◌, All, All-append, All-map, codes,
}
use propsim.Float64.{is_finite}
use propsim.Numerals.{show_int}
use propsim.History.Values.{
  Value, nil, bool, int, float, str, keyword, list, map, Values, empty, cons, Pairs, end, pair,
}
use propsim.History.Edn.{
  FloatText, is_space, is_delim, escaped, push_escaped, write_quoted, fmt_float,
}
use propsim.History.Edn.Write.{gap, pair_gap, write_edn, write_items, write_pairs}
use propsim.History.Edn.Tokens.{IsTokenChar}
use propsim.History.Edn.Numbers.{
  fmt_float-nil, fmt_float-IsFloatOf, IsFloatText, IsPlain, show_int-IsPlain,
}
use propsim.History.Edn.Writable.{IsWritable, AreWritable, ArePairsWritable}
use propsim.History.Codec.{lines}

-- Neither a line feed nor a carriage return.

abbrev pub IsInline : ℕ → Type 0
IsInline c = ((c == b'\n') ≡ false) × ((c == b'\r') ≡ false)

pub lines-append : (l s : Text) → All IsInline l → lines (l ++ b'\n' ∷ s) ≡ l ∷ lines s
unfolding lines
lines-append [] s h = refl
lines-append (c ∷ l) s h = rw (lines, h.0.0, h.0.1, lines-append l s h.1) refl

IsTokenChar-IsInline : (c : ℕ) → IsTokenChar c → IsInline c
unfolding is_delim is_space
IsTokenChar-IsInline c h = ground arith

IsPlain-IsInline : (c : ℕ) → IsPlain c → IsInline c
IsPlain-IsInline c h = ground arith

-- Whether a text is inline.
abbrev inline : Text → Bool
inline [] = true
inline (c ∷ s) = not (c == b'\n') && not (c == b'\r') && inline s

inline-All : (s : Text) → inline s ≡ true → All IsInline s
inline-All [] h = tt
inline-All (c ∷ s) h =
    let here : IsInline c = ground (arith, h) in
    let there : inline s ≡ true = ground (arith, h) in (here, inline-All s there)

escaped-IsInline : (c : ℕ) → All IsInline (escaped c)
unfolding escaped
escaped-IsInline c = ground arith

push_escaped-IsInline : (s : Text) → All IsInline (push_escaped s)
unfolding push_escaped
push_escaped-IsInline [] = tt
push_escaped-IsInline (c ∷ s) =
    All-append IsInline (escaped c) (push_escaped s) (escaped-IsInline c) (push_escaped-IsInline s)

gap-IsInline : (first : Bool) → All IsInline (gap first)
gap-IsInline true = tt
gap-IsInline false = inline-All (b' ' ∷ []) refl

pair_gap-IsInline : (first : Bool) → All IsInline (pair_gap first)
pair_gap-IsInline true = tt
pair_gap-IsInline false = inline-All (codes ", ") refl

module _ (F : FloatText) (L : IsFloatText F) where
  fmt_float-IsInline : (f : ℕ) → All IsInline (fmt_float F f)
  fmt_float-IsInline f = elim (Bool-cases (is_finite f)) [
    | inl h ↦
        let (plain, point, read) = fmt_float-IsFloatOf F L f h in
        All-map IsPlain IsInline (fmt_float F f) IsPlain-IsInline plain
    | inr h ↦ rw (fmt_float-nil F f h) (inline-All (codes "nil") refl)
  ]

  mutual
    unfolding write_edn write_quoted IsWritable

    pub write_edn-IsInline : (v : Value) → IsWritable v → All IsInline (write_edn F v)
    write_edn-IsInline nil h = inline-All (codes "nil") refl
    write_edn-IsInline (bool true) h = inline-All (codes "true") refl
    write_edn-IsInline (bool false) h = inline-All (codes "false") refl
    write_edn-IsInline (int i) h =
        All-map IsPlain IsInline (show_int i) IsPlain-IsInline (show_int-IsPlain i)
    write_edn-IsInline (float f) h = fmt_float-IsInline f
    write_edn-IsInline (str s) h = (
      (refl, refl),
      All-append IsInline (push_escaped s) (b'"' ∷ []) (push_escaped-IsInline s)
          (inline-All (b'"' ∷ []) refl),
    )
    write_edn-IsInline (keyword []) h = absurd h
    write_edn-IsInline (keyword (c ∷ cs)) h =
        ((refl, refl), All-map IsTokenChar IsInline (c ∷ cs) IsTokenChar-IsInline h)
    write_edn-IsInline (list items) h = (
      (refl, refl),
      All-append IsInline (write_items F items true) (b']' ∷ []) (write_items-IsInline items true h)
          (inline-All (b']' ∷ []) refl),
    )
    write_edn-IsInline (map pairs) h = (
      (refl, refl),
      All-append IsInline (write_pairs F pairs true) (b'}' ∷ []) (write_pairs-IsInline pairs true h)
          (inline-All (b'}' ∷ []) refl),
    )

    write_items-IsInline :
        (items : Values) (first : Bool)
        → AreWritable items
        → All IsInline (write_items F items first)
    write_items-IsInline empty first h = tt
    write_items-IsInline (cons v items) first h =
        All-append IsInline (gap first) (write_edn F v ++ write_items F items false)
          (gap-IsInline first)
          (All-append IsInline (write_edn F v) (write_items F items false)
            (write_edn-IsInline v h.0) (write_items-IsInline items false h.1))

    write_pairs-IsInline :
        (pairs : Pairs) (first : Bool)
        → ArePairsWritable pairs
        → All IsInline (write_pairs F pairs first)
    write_pairs-IsInline end first h = tt
    write_pairs-IsInline (pair k v pairs) first h =
        let val =
          All-append IsInline (write_edn F v) (write_pairs F pairs false) (write_edn-IsInline v h.1)
            (write_pairs-IsInline pairs false h.2) in
        All-append IsInline (pair_gap first)
          (write_edn F k ++ b' ' ∷ (write_edn F v ++ write_pairs F pairs false))
          (pair_gap-IsInline first)
          (All-append IsInline (write_edn F k) (b' ' ∷ (write_edn F v ++ write_pairs F pairs false))
            (write_edn-IsInline k h.0) ((refl, refl), val))
