-- ===== src/Logs/Cursor.antt =====
-- internal/logs/cursor.go: an opaque position in a container's raw log stream.
pub mod Codec
use chaos_test.Common.{
  ℕ, zero, suc, ◌+◌, ◌-◌, ◌*◌, ◌/◌, ◌%◌, ◌^◌, ℤ, pos, negsuc, Bool, ◌&&◌, Option, none, some, List,
  [], ◌∷◌, ◌++◌, ltb, leb, ◌==◌, if◌then◌else◌,
}
use chaos_test.Common.Int.{◌-ℤ◌}
use chaos_test.Logs.Text.{Text, split_at, bytes, fnv_write, fnv_basis}
use chaos_test.Logs.Line.{Time, zero_time, same_time, Line}

pub record Cursor : Type 0 where
  pub ts : Time
  pub mark : ℕ
  pub scanned : ℤ

abbrev pub zero_cursor : Cursor
zero_cursor = record { ts = zero_time; mark = 0; scanned = pos 0 }

digits : ℕ → ℕ → Text
digits zero n = []
digits (suc f) n =
    let rest = digits f (n / 10) ++ (b'0' + n % 10) ∷ [] in
    if ltb n 10 then (b'0' + n) ∷ [] else rest

-- `%d` of an unsigned and of a signed integer.
unfoldable pub show_nat : ℕ → Text
unfolding digits
show_nat n = digits (suc n) n

unfoldable pub show_int : ℤ → Text
show_int (pos n) = show_nat n
show_int (negsuc n) = b'-' ∷ show_nat (suc n)

-- `Encode`; `UnixNano` of an instant that an int64 holds.
unfoldable pub encode : Cursor → Text
encode c = show_int c.ts.nanos ++ b':' ∷ (show_nat c.mark ++ b':' ∷ show_int c.scanned)

digit_value : ℕ → Option ℕ
digit_value c = if leb b'0' c && leb c b'9' then some (c - b'0') else none

read_digits : ℕ → Text → Option ℕ
read_digits acc [] = some acc
read_digits acc (c ∷ s) = elim (digit_value c) [
  | none ↦ none
  | some d ↦ read_digits (acc * 10 + d) s
]

-- `strconv.ParseUint(s, 10, 64)`
unfoldable pub parse_uint : Text → Option ℕ
unfolding read_digits digit_value
parse_uint [] = none
parse_uint (c ∷ s) = elim (read_digits 0 (c ∷ s)) [
  | none ↦ none
  | some n ↦ if ltb n (2 ^ 64) then some n else none
]

positive : Option ℕ → Option ℤ
positive none = none
positive (some n) = if ltb n (2 ^ 63) then some (pos n) else none

negative : Option ℕ → Option ℤ
negative none = none
negative (some zero) = some (pos 0)
negative (some (suc n)) = if ltb n (2 ^ 63) then some (negsuc n) else none

-- `strconv.ParseInt(s, 10, 64)`: an optional sign and digits.
unfoldable pub parse_int : Text → Option ℤ
unfolding positive negative
parse_int [] = none
parse_int (c ∷ s) =
    if c == b'-'
    then negative (parse_uint s)
    else if c == b'+'
    then positive (parse_uint s)
    else positive (parse_uint (c ∷ s))

pub data Decoded : Type 0 where
  ok : Cursor → Decoded
  bad_cursor bad_timestamp bad_mark bad_position : Decoded

-- The three fields, in the order in which their errors are reported. `time.Unix` gives the instant in
-- the local zone, which is taken as UTC.
fields : Option ℤ → Option ℕ → Option ℤ → Decoded
fields none mark scanned = bad_timestamp
fields (some ns) none scanned = bad_mark
fields (some ns) (some mark) none = bad_position
fields (some ns) (some mark) (some (negsuc n)) = bad_position
fields (some ns) (some mark) (some (pos n)) =
    ok (record { ts = record { nanos = ns; zone = pos 0 }; mark = mark; scanned = pos n })

three : List Text → Decoded
three (ts ∷ mark ∷ scanned ∷ []) = fields (parse_int ts) (parse_uint mark) (parse_int scanned)
three _ = bad_cursor

unfoldable pub decode : Text → Decoded
unfolding three fields
decode [] = ok zero_cursor
decode (c ∷ s) = three (split_at b':' (c ∷ s))

-- `Since`: one second behind.
pub since : Cursor → Time
since c = record c.ts { nanos = c.ts.nanos -ℤ pos (10 ^ 9) }

-- The content hash of an entry, its continuations left out.
unfoldable pub mark_of : Line → ℕ
mark_of l =
    let h = fnv_write fnv_basis (bytes l.log_at) in
    let h = fnv_write (fnv_write h (0 ∷ [])) (bytes l.level) in
    let h = fnv_write (fnv_write h (0 ∷ [])) (bytes l.source) in
    let h = fnv_write (fnv_write h (0 ∷ [])) (bytes l.service) in
    fnv_write (fnv_write h (0 ∷ [])) (bytes l.msg)

unfoldable pub is_at : Cursor → Line → Bool
is_at c l = same_time l.at c.ts && mark_of l == c.mark

-- The last entry of the window that the cursor stands at, as a split of the window behind it: the
-- entries up to it, and those after it. The Go code returns its index and slices.
unfoldable pub locate : Cursor → List Line → Option (List Line × List Line)
locate c [] = none
locate c (l ∷ ls) = elim (locate c ls) [
  | some (older, newer) ↦ some (l ∷ older, newer)
  | none ↦ if is_at c l then some (l ∷ [], ls) else none
]
