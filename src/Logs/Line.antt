-- ===== src/Logs/Line.antt =====
-- The line type of internal/logs/parse.go.
use chaos_test.Common.{
  ℕ, ◌+◌, ◌-◌, ◌*◌, ◌^◌, ℤ, pos, negsuc, Bool, false, ◌&&◌, List, [], ◌∷◌, ◌++◌, ◌==◌, length,
}
use chaos_test.Common.Int.{pos_part, neg_part}
use chaos_test.Logs.Text.{Text}

-- An instant in nanoseconds since 1970, and the offset of the zone that it is written in.
pub record Time : Type 0 where
  pub nanos : ℤ
  pub zone : ℤ

-- Go's zero time, the first of January of the year 1.
abbrev pub zero_time : Time
zero_time = record { nanos = negsuc (62_135_596_800 * 10 ^ 9 - 1); zone = pos 0 }

unfoldable pub same_int : ℤ → ℤ → Bool
same_int a b = pos_part a == pos_part b && neg_part a == neg_part b

-- `t.Equal(u)`
unfoldable pub same_time : Time → Time → Bool
unfolding same_int
same_time t u = same_int t.nanos u.nanos

unfoldable pub is_zero : Time → Bool
unfolding same_time
is_zero t = same_time t zero_time

pub record Line : Type 0 where
  pub seq : ℤ
  pub at_text : Text
  pub log_at : Text
  pub level : Text
  pub service : Text
  pub source : Text
  pub msg : Text
  pub cont : List Text
  pub continuation : Bool
  pub root_cause : Text
  pub code : Text
  pub code_num : ℕ
  pub raw : Text
  pub at : Time

abbrev pub empty_line : Line
empty_line = record {
  seq = pos 0;
  at_text = [];
  log_at = [];
  level = [];
  service = [];
  source = [];
  msg = [];
  cont = [];
  continuation = false;
  root_cause = [];
  code = [];
  code_num = 0;
  raw = [];
  at = zero_time;
}

-- How many physical lines an entry took.
abbrev pub raw_count : Line → ℕ
raw_count l = 1 + length l.cont

abbrev pub raw_sum : List Line → ℕ
raw_sum [] = 0
raw_sum (l ∷ ls) = raw_count l + raw_sum ls

abbrev pub join_lines : List Text → Text
join_lines [] = []
join_lines (t ∷ []) = t
join_lines (t ∷ u ∷ ts) = t ++ 10 ∷ join_lines (u ∷ ts)

unfoldable pub joined : Line → Text
joined l = elim l.cont [ [] ↦ l.msg | t ∷ ts ↦ l.msg ++ 10 ∷ join_lines (t ∷ ts) ]
