-- ===== src/Chaos/Read.antt =====
-- internal/chaos/runtime.go: a log is read up to a ceiling, over the engine's socket (`getLimited`
-- and `Logs`), or from the command line (`Logs` of cliRuntime).
pub mod Windows
use chaos_test.Common.{
  ℕ, ◌-◌, Bool, true, false, Option, none, some, List, [], ◌∷◌, ◌++◌, ltb, leb, ◌==◌, if◌then◌else◌,
  length, take, drop,
}
use chaos_test.Chaos.{LogResult, is_empty}
use chaos_test.Chaos.Stream.{demux_log_stream}
use chaos_test.Logs.Text.{Text}

-- What is read up to the last newline, where there is one.
unfoldable pub to_last_newline : Text → Option Text
to_last_newline [] = none
to_last_newline (c ∷ s) = elim (to_last_newline s) [
  | some t ↦ some (c ∷ t)
  | none ↦ if c == 10 then some (c ∷ []) else none
]

-- What stands behind the first newline, where there is one.
unfoldable pub after_newline : Text → Option Text
after_newline [] = none
after_newline (c ∷ s) = let rest = after_newline s in if c == 10 then some s else rest

unfoldable pub or_whole : Option Text → Text → Text
or_whole (some t) text = t
or_whole none text = text

-- The engine's answer: no connection, a read that breaks off, or a status with the body.
pub data Answer : Type 0 where
  refused : Answer
  broken : Answer
  answered : (status : ℕ) (body : Text) → Answer

-- `getLimited`, with the body and whether it was longer; none for an error.
unfoldable pub get_limited : ℕ → Answer → Option (Text × Bool)
get_limited max refused = none
get_limited max broken = none
get_limited max (answered status body) =
    if leb 300 status
    then none
    else if ltb max (length body)
    then some (take max body, true)
    else some (body, false)

unfoldable pub logs_text : Text × Bool → LogResult
logs_text (b, truncated) =
    let text = demux_log_stream b in
    record {
      text = if truncated then or_whole (to_last_newline text) text else text;
      bytes = length b;
      truncated = truncated;
    }

-- `Logs` of the socket; none for an error.
unfoldable pub logs : ℕ → Answer → Option LogResult
logs max answer = elim (get_limited max answer) [ some read ↦ some (logs_text read) | none ↦ none ]

-- `Logs` of the command line, from what the command has written; none where it failed.
unfoldable pub cli_logs : ℕ → Option Text → Option LogResult
cli_logs max none = none
cli_logs max (some stdout) =
    let truncated = ltb max (length stdout) in
    let kept = drop (length stdout - max) stdout in
    some record {
      text = if truncated then or_whole (after_newline kept) kept else stdout;
      bytes = length stdout;
      truncated = truncated;
    }
