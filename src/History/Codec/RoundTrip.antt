-- ===== src/History/Codec/RoundTrip.antt =====
-- A history that is saved is read back.
use propsim.Base.{
  ℕ, ◌^◌, ◌<◌, ◌≡◌, refl, arith, inl, inr, Bool, true, false, Bool-cases, ◌==◌, ◌&&◌, not, ltb,
  Text, [], ◌∷◌, All, some, codes, text_eq, map,
}
use propsim.Texts.{is_white, trim, trim_start, trim_end, end_at}
use propsim.History.{OpEntry, OpKind, Clock, virtual, wall, kind_keyword, from_keyword, History}
use propsim.History.Values.{keyword}
use propsim.History.Parsed.{ok}
use propsim.History.Edn.{FloatText, is_delim, is_space}
use propsim.History.Edn.Write.{write_edn}
use propsim.History.Edn.Tokens.{IsTokenChar}
use propsim.History.Edn.Numbers.{IsFloatText}
use propsim.History.Edn.Writable.{IsWritable, readable}
use propsim.History.Edn.RoundTrip.{parse_edn-write_edn}
use propsim.History.Codec.{
  as_i64, as_u64, clock_kw, clock_from_kw, entry_to_value, get, is_key, require_int, clock_of,
  kind_of, function_of, entry_of, value_to_entry, lines, to_jepsen_edn, from_jepsen, read_lines,
  starts_with, is_empty,
}
use propsim.History.Codec.Lines.{write_edn-IsInline, lines-append}
use propsim.Numerals.Correct.{IsI64}

pub as_u64-as_i64 : (n : ℕ) → n < 2 ^ 64 → as_u64 (as_i64 n) ≡ n
unfolding as_u64 as_i64
as_u64-as_i64 n h = elim (Bool-cases (ltb n (2 ^ 63))) [
  | inl e ↦ rw e refl
  | inr e ↦ rw e (omega arith)
]

pub as_i64-IsI64 : (n : ℕ) → n < 2 ^ 64 → IsI64 (as_i64 n)
unfolding as_i64
as_i64-IsI64 n h = elim (Bool-cases (ltb n (2 ^ 63))) [
  | inl e ↦ rw e (ground arith)
  | inr e ↦ rw e (ground arith)
]

pub clock_from_kw-clock_kw : (c : Clock) → clock_from_kw (clock_kw c) ≡ ok c
unfolding clock_from_kw clock_kw text_eq
clock_from_kw-clock_kw virtual = refl
clock_from_kw-clock_kw wall = refl

pub from_keyword-kind_keyword : (k : OpKind) → from_keyword (kind_keyword k) ≡ some k
unfolding from_keyword kind_keyword text_eq
from_keyword-kind_keyword OpKind.invoke = refl
from_keyword-kind_keyword OpKind.ok = refl
from_keyword-kind_keyword OpKind.fail = refl
from_keyword-kind_keyword OpKind.info = refl

-- The numbers of an entry are in the ranges of their types, the name of its function is a token,
-- and its value can be written.
abbrev pub IsSaveable : OpEntry → Type 0
IsSaveable e =
    (e.index < 2 ^ 64)
    × (e.process < 2 ^ 64)
    × IsI64 e.time.nanos
    × IsWritable (keyword e.f)
    × IsWritable e.value

-- The entry with nil for each float of its value that is not finite.
unfoldable pub readable_entry : OpEntry → OpEntry
readable_entry e = record e { value = readable e.value }

-- Whether a text is a token.
abbrev is_token : Text → Bool
is_token [] = true
is_token (c ∷ s) = not (is_delim c) && is_token s

is_token-All : (s : Text) → is_token s ≡ true → All IsTokenChar s
is_token-All [] h = tt
is_token-All (c ∷ s) h =
    let here : IsTokenChar c = grind (arith, h) in
    let there : is_token s ≡ true = grind (arith, h) in (here, is_token-All s there)

token : (c : ℕ) (s : Text) → is_token (c ∷ s) ≡ true → IsWritable (keyword (c ∷ s))
unfolding IsWritable
token c s h = is_token-All (c ∷ s) h

clock_kw-IsWritable : (c : Clock) → IsWritable (keyword (clock_kw c))
unfolding clock_kw is_delim is_space
clock_kw-IsWritable virtual = token b'v' (codes "irtual") refl
clock_kw-IsWritable wall = token b'w' (codes "all") refl

kind_keyword-IsWritable : (k : OpKind) → IsWritable (keyword (kind_keyword k))
unfolding kind_keyword is_delim is_space
kind_keyword-IsWritable OpKind.invoke = token b'i' (codes "nvoke") refl
kind_keyword-IsWritable OpKind.ok = token b'o' (codes "k") refl
kind_keyword-IsWritable OpKind.fail = token b'f' (codes "ail") refl
kind_keyword-IsWritable OpKind.info = token b'i' (codes "nfo") refl

entry_to_value-IsWritable : (e : OpEntry) → IsSaveable e → IsWritable (entry_to_value e)
unfolding entry_to_value IsWritable is_delim is_space
entry_to_value-IsWritable e h = (
  token b'i' (codes "ndex") refl,
  as_i64-IsI64 e.index h.0,
  (
    token b't' (codes "ime") refl,
    h.2,
    (
      token b'c' (codes "lock") refl,
      clock_kw-IsWritable e.time.clock,
      (
        token b't' (codes "ype") refl,
        kind_keyword-IsWritable e.kind,
        (
          token b'p' (codes "rocess") refl,
          as_i64-IsI64 e.process h.1,
          (token b'f' [] refl, h.3, (token b'v' (codes "alue") refl, h.4, tt)),
        ),
      ),
    ),
  ),
)

value_to_entry-readable :
    (e : OpEntry)
    → IsSaveable e
    → value_to_entry (readable (entry_to_value e)) ≡ ok (readable_entry e)
unfolding entry_to_value readable value_to_entry entry_of get is_key text_eq require_int clock_of
    kind_of function_of readable_entry
value_to_entry-readable e h =
    rw
      (
        clock_from_kw-clock_kw e.time.clock,
        from_keyword-kind_keyword e.kind,
        as_u64-as_i64 e.index h.0,
        as_u64-as_i64 e.process h.1,
      )
      refl

trim_end-ink : (c : ℕ) (s : Text) → is_white c ≡ false → is_empty (trim_end (c ∷ s)) ≡ false
unfolding trim_end
trim_end-ink c s h = end_ink (trim_end s)
  where
    end_ink : (t : Text) → is_empty (end_at c t) ≡ false
    end_ink [] = rw h refl
    end_ink (d ∷ ds) = refl

lines-empty : lines [] ≡ []
unfolding lines
lines-empty = refl

module _ (F : FloatText) (L : IsFloatText F) where
  -- The text does not begin with the bracket of a sequence.
  no_sequence :
      (c : ℕ) (h : History)
      → (b'{' == c) ≡ false
      → starts_with c (trim_start (to_jepsen_edn F h)) ≡ false
  unfolding starts_with trim_start is_white to_jepsen_edn entry_to_value write_edn
  no_sequence c [] k = refl
  no_sequence c (e ∷ h) k = k

  -- A line that a saved entry stands on is not blank.
  not_blank : (e : OpEntry) → is_empty (trim (write_edn F (entry_to_value e))) ≡ false
  unfolding trim trim_start is_white entry_to_value write_edn
  not_blank e = trim_end-ink b'{' _ refl

  read_lines-to_jepsen_edn :
      (h : History)
      → All IsSaveable h
      → read_lines F (lines (to_jepsen_edn F h)) ≡ ok (map readable_entry h)
  unfolding read_lines to_jepsen_edn
  read_lines-to_jepsen_edn [] k = rw lines-empty refl
  read_lines-to_jepsen_edn (e ∷ h) k =
      let writable = entry_to_value-IsWritable e k.0 in
      rw
        (
          lines-append (write_edn F (entry_to_value e)) (to_jepsen_edn F h)
              (write_edn-IsInline F L (entry_to_value e) writable),
          read_lines,
          not_blank e,
          parse_edn-write_edn F L (entry_to_value e) writable,
          value_to_entry-readable e k.0,
          read_lines-to_jepsen_edn h k.1,
        )
        refl

  -- A history that is saved as EDN and whose entries can be saved is read back entry by entry, with
  -- nil for each float that is not finite.
  pub from_jepsen-to_jepsen_edn :
      (h : History)
      → All IsSaveable h
      → from_jepsen F (to_jepsen_edn F h) ≡ ok (map readable_entry h)
  unfolding from_jepsen
  from_jepsen-to_jepsen_edn h k =
      rw (no_sequence b'[' h refl, no_sequence b'(' h refl) (read_lines-to_jepsen_edn h k)
