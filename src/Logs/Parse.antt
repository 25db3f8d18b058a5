-- ===== src/Logs/Parse.antt =====
-- internal/logs/parse.go: from a raw window to lines. `time.Parse` and `time.Format` come in as a
-- `Clock`.
pub mod Counting
use chaos_test.Common.{
  ℕ, zero, suc, ◌+◌, ◌-◌, ◌*◌, ◌^◌, ◌%◌, ℤ, pos, negsuc, Bool, true, false, not, ◌&&◌, ◌||◌, Option,
  none, some, List, [], ◌∷◌, ◌++◌, map, ltb, leb, ◌==◌, if◌then◌else◌, length,
}
use chaos_test.Common.Int.{◌+ℤ◌, leb_ℤ}
use chaos_test.Logs.Text.{
  Text, codes, text_eq, cut, has_text, split_n, split_at, trim_suffix, trim_space, strip_prefix,
}
use chaos_test.Logs.Line.{Time, zero_time, is_zero, Line, empty_line, joined}

-- `time.Parse` with the layouts RFC3339Nano and RFC3339, and `Format` with the first.
pub record Clock : Type 0 where
  pub parse_nano : Text → Option Time
  pub parse_rfc3339 : Text → Option Time
  pub format : Time → Text

-- `levelRank`
unfoldable pub level_rank : Text → Option ℕ
level_rank level =
    if text_eq level (codes "DEBUG")
    then some 0
    else if text_eq level (codes "INFO")
    then some 1
    else if text_eq level (codes "WARN")
    then some 2
    else if text_eq level (codes "ERROR")
    then some 3
    else if text_eq level (codes "FATAL")
    then some 4
    else none

unfoldable pub rank : Text → ℤ
rank level = elim (level_rank level) [ some r ↦ pos r | none ↦ negsuc 0 ]

-- The text behind the last " -> ", if there is one.
unfoldable pub after_last : Text → Text → Option Text
after_last sep [] = none
after_last sep (c ∷ s) = elim (after_last sep s) [
  | some rest ↦ some rest
  | none ↦ strip_prefix sep (c ∷ s)
]

is_upper : ℕ → Bool
is_upper c = leb b'A' c && leb c b'Z'

is_digit : ℕ → Bool
is_digit c = leb b'0' c && leb c b'9'

is_code : ℕ → Bool
is_code c = is_upper c || (is_digit c || c == b'_')

-- The longest run of code points that pass a test, and the rest.
span : (ℕ → Bool) → Text → Text × Text
span p [] = ([], [])
span p (c ∷ s) = let (run, rest) = span p s in if p c then (c ∷ run, rest) else ([], c ∷ s)

-- The value of a run of digits.
decimal : ℕ → Text → ℕ
decimal acc [] = acc
decimal acc (c ∷ s) = decimal (acc * 10 + (c - b'0')) s

-- `strconv.Atoi` with its error dropped: what does not fit becomes the greatest int.
atoi : Text → ℕ
atoi s = if ltb (decimal 0 s) (2 ^ 63) then decimal 0 s else 2 ^ 63 - 1

pub record Cause : Type 0 where
  pub code : Text
  pub num : ℕ
  pub text : Text

-- `codeRe`: a name of three or more, " (", digits, "): " and the rest.
typed_cause : Text → Option Cause
typed_cause s =
    let (name, rest) = span is_code s in
    elim (strip_prefix (codes " (") rest) [
      | none ↦ none
      | some inner ↦
          let (digits, tail) = span is_digit inner in
          elim (strip_prefix (codes "): ") tail) [
            | none ↦ none
            | some text ↦
                if starts_upper name && (leb 3 (length name) && not (text_eq digits []))
                then some (record { code = name; num = atoi digits; text = trim_space text })
                else none
          ]
    ]
  where
    starts_upper : Text → Bool
    starts_upper [] = false
    starts_upper (c ∷ s) = is_upper c

unfoldable pub root_cause_of : Text → Cause
unfolding typed_cause span is_code is_upper is_digit atoi decimal
root_cause_of msg =
    let whole = trim_space msg in
    let cause : Text = elim (after_last (codes " -> ") whole) [
      | some rest ↦ trim_space rest
      | none ↦ whole
    ] in
    elim (typed_cause cause) [ some c ↦ c | none ↦ record { code = []; num = 0; text = cause } ]

module _ (clock : Clock) where
  -- The runtime's timestamp and what stands behind it.
  unfoldable pub split_runtime_stamp : Text → Time × Text
  split_runtime_stamp text = elim (cut (codes " ") text) [
    | none ↦ (zero_time, text)
    | some ([], rest) ↦ (zero_time, text)
    | some (c ∷ stamp, rest) ↦ elim (clock.parse_nano (c ∷ stamp)) [
      | some ts ↦ (ts, rest)
      | none ↦ (zero_time, text)
    ]
  ]

  structured : Text → Text → Text → Text → Text → Option Line
  structured time level source service msg = elim (clock.parse_rfc3339 (trim_space time)) [
    | none ↦ none
    | some ts ↦ elim (level_rank (trim_space level)) [
      | none ↦ none
      | some r ↦ some (record empty_line {
        log_at = trim_space time;
        level = trim_space level;
        source = trim_space source;
        service = trim_space service;
        msg = msg;
      })
    ]
  ]

  five : List Text → Option Line
  five (time ∷ level ∷ source ∷ service ∷ msg ∷ []) = structured time level source service msg
  five _ = none

  unfoldable pub parse_structured : Text → Option Line
  unfolding five structured
  parse_structured rest = five (split_n 4 (codes " | ") rest)

  -- A line at the end of the window's list takes one more physical line.
  unfoldable pub attach : Bool → Text → Text → List Line → List Line
  attach keep_raw rest text [] = []
  attach keep_raw rest text (l ∷ []) =
      record l { cont = l.cont ++ rest ∷ []; raw = if keep_raw then l.raw ++ 10 ∷ text else l.raw }
      ∷ []
  attach keep_raw rest text (l ∷ m ∷ ls) = l ∷ attach keep_raw rest text (m ∷ ls)

  -- The line of a physical line that starts an entry.
  unfoldable pub stamped : ℤ → Bool → ℕ → Time → Text → Line → Line
  stamped start keep_raw total ts text l = record l {
    seq = start +ℤ pos total;
    at = ts;
    at_text = if is_zero ts then l.at_text else clock.format ts;
    raw = if keep_raw then text else l.raw;
  }

  -- Where a physical line goes: it starts an entry, or it continues the last one, or it is an
  -- orphan where there is none.
  unfoldable pub place : ℤ → Bool → ℕ → Time → Text → Text → Option Line → List Line → List Line
  unfolding stamped
  place start keep_raw total ts text rest (some l) ls =
      ls ++ stamped start keep_raw total ts text l ∷ []
  place start keep_raw total ts text rest none [] =
      stamped start keep_raw total ts text (record empty_line { msg = rest; continuation = true })
      ∷ []
  place start keep_raw total ts text rest none (l ∷ ls) = attach keep_raw rest text (l ∷ ls)

  -- One round of the loop of `Scan`, over the lines and the number of physical lines so far.
  unfoldable pub scan_one : ℤ → Bool → Text → List Line × ℕ → List Line × ℕ
  scan_one start keep_raw physical (ls, total) =
      let text = trim_suffix 13 physical in
      let (ts, rest) = split_runtime_stamp text in
      (place start keep_raw total ts text rest (parse_structured rest) ls, total + 1)

  unfoldable pub scan_all : ℤ → Bool → List Text → List Line × ℕ → List Line × ℕ
  scan_all start keep_raw [] acc = acc
  scan_all start keep_raw (t ∷ ts) acc = scan_all start keep_raw ts (scan_one start keep_raw t acc)

  -- Root causes are lifted once the continuations are attached.
  unfoldable pub lift_cause : Line → Line
  lift_cause l =
      let c = root_cause_of (joined l) in
      if (leb_ℤ (pos 2) (rank l.level) || text_eq l.level [])
        && (not (text_eq c.text [])
            && (not (text_eq c.code []) || has_text (joined l) (codes " -> ")))
      then record l { root_cause = c.text; code = c.code; code_num = c.num }
      else l

  unfoldable pub scan : ℤ → Bool → Text → List Line × ℕ
  scan start keep_raw raw =
      let body = trim_suffix 10 raw in
      if text_eq body []
      then ([], 0)
      else let (ls, total) = scan_all start keep_raw (split_at 10 body) ([], 0) in
        (map lift_cause ls, total)
