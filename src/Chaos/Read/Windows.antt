-- ===== src/Chaos/Read/Windows.antt =====
-- internal/chaos/runtime.go: the window of a log that `Logs` of the socket returns.
use mathlib.Core.List.{append_assoc}
use chaos_test.Common.{
  ℕ, ◌≤◌, ◌<◌, ◌≡◌, refl, ap, sym, ◌∙◌, ◌⊎◌, inl, inr, true, false, none, some, List, [], ◌∷◌, ◌++◌,
  arith, ltb, length, take, length-take, All, Bool-cases, Option-cases,
}
use chaos_test.Chaos.{LogResult}
use chaos_test.Chaos.Read.{to_last_newline, or_whole, get_limited, logs_text, logs, answered}
use chaos_test.Chaos.Stream.{demux_log_stream, mux, contents}
use chaos_test.Chaos.Stream.Frames.{WithoutNewline, IsFrame, Cut, demux_loop-mux, demux_loop-cut}
use chaos_test.Logs.Text.{Text}

-- A part of the whole, from its start, with its last line complete.
abbrev pub AreLines : Text → Text → Type 0
AreLines whole text =
    (lines : Text) × (rest : Text) × (text ≡ lines ++ 10 ∷ []) × (whole ≡ text ++ rest)

-- All of the whole, where the stream was not longer than the ceiling; else lines of it, or a text
-- in which no line ends.
abbrev pub IsWindow : (max size : ℕ) → Text → LogResult → Type 0
IsWindow max size whole r =
    (size ≤ max) × (r.truncated ≡ false) × (r.bytes ≡ size) × (r.text ≡ whole)
    ⊎ (max < size)
      × (r.truncated ≡ true)
      × (r.bytes ≡ max)
      × (WithoutNewline r.text ⊎ AreLines whole r.text)

to_last_newline-none : (t : Text) → to_last_newline t ≡ none → WithoutNewline t
unfolding to_last_newline
to_last_newline-none [] h = tt
to_last_newline-none (c ∷ t) h = elim (Option-cases (to_last_newline t)) [
  | inl e ↦ (ground (arith, h, e), to_last_newline-none t e)
  | inr (u, e) ↦ ground (arith, h, e)
]

-- The first byte is before the last newline, or it is that newline.
cons_lines : (c : ℕ) (t u : Text) → AreLines t u → AreLines (c ∷ t) (c ∷ u)
cons_lines c t u (lines, rest, is_text, is_whole) =
    (c ∷ lines, rest, ap (◌∷◌ c) is_text, ap (◌∷◌ c) is_whole)

to_last_newline-some : (t l : Text) → to_last_newline t ≡ some l → AreLines t l
unfolding to_last_newline
to_last_newline-some [] l h = cc
to_last_newline-some (c ∷ t) l h = elim (Option-cases (to_last_newline t)) [
  | inl e ↦
      let is_last : (c ≡ 10) × (10 ∷ [] ≡ l) = ground (arith, h, e) in
      ([], t, sym is_last.1, rw (sym is_last.1) (ap (λ d. d ∷ t) is_last.0))
  | inr (u, e) ↦
      let more : c ∷ u ≡ l = ground (arith, h, e) in
      rw (sym more) (cons_lines c t u (to_last_newline-some t u e))
]

-- A piece without a newline does not count.
to_last_newline-append :
    (t piece : Text) → WithoutNewline piece → to_last_newline (t ++ piece) ≡ to_last_newline t
unfolding to_last_newline
to_last_newline-append [] [] h = refl
to_last_newline-append [] (c ∷ piece) h = rw (to_last_newline-append [] piece h.1, h.0)
to_last_newline-append (c ∷ t) piece h = rw (to_last_newline-append t piece h)

-- What the reader is handed of a stream that is cut off.
handed_on :
    (whole text : Text)
    → Cut whole text
    → WithoutNewline (or_whole (to_last_newline text) text)
      ⊎ AreLines whole (or_whole (to_last_newline text) text)
unfolding or_whole
handed_on whole text cut = elim (Option-cases (to_last_newline text)) [
  | inl e ↦ inl (rw e (to_last_newline-none text e))
  | inr (l, e) ↦
      let in_kept : to_last_newline cut.kept ≡ some l =
        sym (to_last_newline-append cut.kept cut.piece cut.no_newline)
        ∙ ap to_last_newline (sym cut.is_text)
        ∙ e in
      let (lines, rest, is_text, is_kept) = to_last_newline-some cut.kept l in_kept in
      inr (
        rw e (
          lines,
          rest ++ cut.rest,
          is_text,
          cut.is_whole ∙ ap (λ a. a ++ cut.rest) is_kept ∙ append_assoc l rest cut.rest,
        ))
]

read_short :
    (max status : ℕ) (body : Text)
    → status < 300
    → length body ≤ max
    → get_limited max (answered status body) ≡ some (body, false)
unfolding get_limited
read_short max status body hs h = ground arith

read_long :
    (max status : ℕ) (body : Text)
    → status < 300
    → max < length body
    → get_limited max (answered status body) ≡ some (take max body, true)
unfolding get_limited
read_long max status body hs h = ground arith

-- For a stream of frames, of whose lengths no byte but the last is that of a newline: where the
-- status is below 300, `Logs` of the socket returns a window. If the stream is not longer than
-- the ceiling, that is the contents of the frames; else it is said to be cut off at the ceiling,
-- and is a part of the contents, from the start, that ends with a newline, or a text that has
-- none.
pub logs-IsWindow :
    (max status : ℕ) (fs : List (ℕ × Text))
    → All IsFrame fs
    → status < 300
    → (r : LogResult) × (logs max (answered status (mux fs)) ≡ some r)
      × IsWindow max (length (mux fs)) (contents fs) r
unfolding logs logs_text demux_log_stream
logs-IsWindow max status fs h hs = elim (Bool-cases (ltb max (length (mux fs)))) [
  | inl long ↦
      let b : Text = take max (mux fs) in
      let (text, shown, cut) = demux_loop-cut (length b) max [] fs h (omega arith) in
      (
        logs_text (b, true),
        rw (read_long max status (mux fs) hs (ground arith), logs),
        inr (
          ground arith,
          refl,
          length-take max (mux fs) ∙ ground arith,
          rw shown (handed_on (contents fs) text cut),
        ),
      )
  | inr short ↦ (
    logs_text (mux fs, false),
    rw (read_short max status (mux fs) hs (ground arith), logs),
    inl (ground arith, refl, refl, demux_loop-mux (length (mux fs)) [] fs h (omega arith)),
  )
]
