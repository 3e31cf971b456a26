-- ===== src/History/Codec/Settled.antt =====
-- Turning a value into an entry, or a list of values into a history, gives an answer or an error.
use propsim.Base.{arith, Text, Option, none, some, codes}
use propsim.Numerals.{parse_i64}
use propsim.History.{OpKind, from_keyword}
use propsim.History.Values.{ℤ, Value, int, str, keyword, list, map, Values, empty, cons}
use propsim.History.Parsed.{IsSettled, IsSettled-bind}
use propsim.History.Codec.{
  clock_from_kw, get, require_int, int_or_error, clock_of, kind_or_error, kind_of, function_of,
  entry_of, value_to_entry, collect_entries, entries_of,
}

int_or_error-IsSettled : (field : Text) (o : Option ℤ) → IsSettled (int_or_error field o)
int_or_error-IsSettled field none = tt
int_or_error-IsSettled field (some i) = tt

kind_or_error-IsSettled : (k : Text) (o : Option OpKind) → IsSettled (kind_or_error k o)
kind_or_error-IsSettled k none = tt
kind_or_error-IsSettled k (some kind) = tt

clock_from_kw-IsSettled : (k : Text) → IsSettled (clock_from_kw k)
unfolding clock_from_kw
clock_from_kw-IsSettled k = ground arith

require_int-IsSettled : (o : Option Value) (field : Text) → IsSettled (require_int o field)
unfolding require_int
require_int-IsSettled (some (int i)) field = tt
require_int-IsSettled (some (str s)) field = int_or_error-IsSettled field (parse_i64 s)
require_int-IsSettled _ field = tt

clock_of-IsSettled : (o : Option Value) → IsSettled (clock_of o)
unfolding clock_of
clock_of-IsSettled (some (keyword k)) = clock_from_kw-IsSettled k
clock_of-IsSettled (some (str k)) = clock_from_kw-IsSettled k
clock_of-IsSettled _ = tt

kind_of-IsSettled : (o : Option Value) → IsSettled (kind_of o)
unfolding kind_of
kind_of-IsSettled (some (keyword k)) = kind_or_error-IsSettled k (from_keyword k)
kind_of-IsSettled (some (str k)) = kind_or_error-IsSettled k (from_keyword k)
kind_of-IsSettled _ = tt

function_of-IsSettled : (o : Option Value) → IsSettled (function_of o)
unfolding function_of
function_of-IsSettled (some (keyword k)) = tt
function_of-IsSettled (some (str k)) = tt
function_of-IsSettled _ = tt

pub value_to_entry-IsSettled : (v : Value) → IsSettled (value_to_entry v)
unfolding value_to_entry entry_of
value_to_entry-IsSettled (map pairs) =
    IsSettled-bind _ _ (require_int-IsSettled (get (codes "index") pairs) (codes "index")) λ index.
      IsSettled-bind _ _ (require_int-IsSettled (get (codes "time") pairs) (codes "time")) λ nanos.
        IsSettled-bind _ _ (clock_of-IsSettled (get (codes "clock") pairs)) λ clock.
          IsSettled-bind _ _ (kind_of-IsSettled (get (codes "type") pairs)) λ kind.
            IsSettled-bind _ _
              (require_int-IsSettled (get (codes "process") pairs) (codes "process"))
              λ process. IsSettled-bind _ _ (function_of-IsSettled (get (codes "f") pairs)) λ f. tt
value_to_entry-IsSettled _ = tt

collect_entries-IsSettled : (items : Values) → IsSettled (collect_entries items)
unfolding collect_entries
collect_entries-IsSettled empty = tt
collect_entries-IsSettled (cons v items) =
    IsSettled-bind (value_to_entry v) _ (value_to_entry-IsSettled v)
      λ e. IsSettled-bind (collect_entries items) _ (collect_entries-IsSettled items) λ es. tt

pub entries_of-IsSettled : (v : Value) → IsSettled (entries_of v)
unfolding entries_of
entries_of-IsSettled (list items) = collect_entries-IsSettled items
entries_of-IsSettled _ = tt
