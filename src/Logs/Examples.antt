-- ===== src/Logs/Examples.antt =====
-- Runs of internal/logs at concrete inputs, with a clock that writes an instant as its nanoseconds.
use chaos_test.Common.{
  arith, ◌≡◌, refl, true, false, pos, Option, none, some, [], ◌∷◌, if◌then◌else◌, length,
}
use chaos_test.Logs.Text.{
  Text, codes, text_eq, split_at, trim_suffix, trim_space, trim_left, is_space, cut, split_n,
  strip_prefix, has_text, fnv_write, bytes,
}
use chaos_test.Common.Int.{◌+ℤ◌}
use chaos_test.Logs.Line.{Line, Time, is_zero, joined, same_int, same_time, empty_line}
use chaos_test.Logs.Parse.{
  Clock, scan, scan_all, scan_one, place, parse_structured, split_runtime_stamp, after_last, attach,
  level_rank, lift_cause, rank, root_cause_of, stamped,
}
use chaos_test.Logs.Parse.Counting.{Counted, Numbered, scan-Counted}
use chaos_test.Logs.Cursor.{
  decode, ok, mark_of, is_at, encode, show_int, show_nat, parse_int, parse_uint,
}
use chaos_test.Logs.Cursor.Codec.{written, decode-encode}
use chaos_test.Logs.Filter.{Texts}
use chaos_test.Logs.Page.{Request, build, resume, renumber}
use chaos_test.Logs.Page.Resume.{stand_behind, resumed}

abbrev read_time : Text → Option Time
read_time s = elim (parse_int s) [
  | none ↦ none
  | some n ↦ some (record { nanos = n; zone = pos 0 })
]

abbrev clock : Clock
clock = record { parse_nano = read_time; parse_rfc3339 = read_time; format = λ t. show_int t.nanos }

abbrev plain : Texts
plain = record { to_upper = λ s. s; to_lower = λ s. s; compile = λ s. none }

abbrev window_text : Text
window_text = codes "5 5 | INFO | a | b | hi\nmore\n6 6 | WARN | a | b | ho\n"

scan-Counted_example :
    Counted clock (pos 0) (scan clock (pos 0) false window_text)
    × ((scan clock (pos 0) false window_text).1 ≡ (
        if text_eq (trim_suffix 10 window_text) []
        then 0
        else length (split_at 10 (trim_suffix 10 window_text))))
scan-Counted_example = scan-Counted clock (pos 0) false window_text

abbrev seen : Line
seen = record empty_line {
  at_text = codes "5";
  log_at = codes "5";
  level = codes "INFO";
  source = codes "a";
  service = codes "b";
  msg = codes "hi";
  cont = codes "more" ∷ [];
  at = record { nanos = pos 5; zone = pos 0 };
}

abbrev new : Line
new = record empty_line {
  seq = pos 2;
  at_text = codes "6";
  log_at = codes "6";
  level = codes "WARN";
  source = codes "a";
  service = codes "b";
  msg = codes "ho";
  root_cause = [];
  at = record { nanos = pos 6; zone = pos 0 };
}

abbrev request : Request
request = record {
  cursor = record {
    ts = record { nanos = pos 5; zone = pos 0 };
    mark = mark_of seen;
    scanned = pos 7;
  };
  has_cursor = true;
  limit = pos 0;
  filter = record {
    min_level = [];
    included = [];
    excluded = [];
    grep = [];
    re = none;
    case = false;
  };
  keep_raw = false;
}

window_lines : (scan clock (pos 0) false window_text).0 ≡ seen ∷ new ∷ []
unfolding scan text_eq trim_suffix scan_all split_at scan_one place parse_structured split_n cut
    split_runtime_stamp strip_prefix parse_int parse_uint trim_space trim_left is_space ◌+ℤ◌ is_zero
    joined same_int same_time after_last attach level_rank lift_cause rank root_cause_of stamped
    has_text show_int show_nat
window_lines = refl

resumed_example :
    let p = build clock plain window_text request in
    let r = resume request (scan clock (pos 0) false window_text).0 in
    (r.fresh ≡ new ∷ [])
    × Numbered (pos 7) 0 (renumber r.offset r.fresh)
    × (p.reset ≡ false)
    × (p.scanned ≡ 1)
    × (p.next_cursor ≡ encode (stand_behind request.cursor (new ∷ [])))
unfolding is_at same_time same_int mark_of fnv_write bytes
resumed_example =
    resumed clock plain window_text request [] (new ∷ []) seen refl window_lines refl (refl, tt)

decode-encode_example : decode (encode (written (pos 6) 17 3)) ≡ ok (written (pos 6) 17 3)
decode-encode_example = decode-encode (pos 6) 17 3 (omega arith) (omega arith) (omega arith)
