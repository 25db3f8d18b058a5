-- ===== src/Chaos/Stream/Frames.antt =====
-- internal/chaos/runtime.go: what `demuxLogStream` makes of the frames that the engine has
-- written, and of a stream of them that is cut off at any byte.
use Prim.Native.Nat.{min}
use mathlib.Core.List.{append-nil, append_assoc}
use chaos_test.Common.{
  ℕ, zero, suc, ◌+◌, ◌-◌, ◌*◌, ◌/◌, ◌%◌, ◌≤◌, ◌<◌, ◌≡◌, refl, ap, sym, ◌∙◌, inl, inr, true, false,
  List, [], ◌∷◌, ◌++◌, arith, leb, ◌==◌, length, take, drop, length-append, length-take,
  take-append, take-append_length, take_all, All-take_le, Bool-cases, ltb, drop-append_length,
  take-append-drop, All,
}
use chaos_test.Chaos.Stream.{is_header, frame_size, demux_loop, header, mux, contents}
use chaos_test.Logs.Text.{Text}

abbrev pub WithoutNewline : Text → Type 0
WithoutNewline t = All (λ (c : ℕ). (c == 10) ≡ false) t

-- The stream's number and the payload's length can be written, and no byte of the length but the
-- last one is that of a newline.
abbrev pub IsFrame : ℕ × Text → Type 0
IsFrame (stream, payload) =
    (stream ≤ 2)
    × (length payload < 4294967296)
    × WithoutNewline (take 7 (header stream (length payload)))

-- The text is a part of the whole, from its start, with a piece of a header behind it.
pub record Cut (whole text : Text) : Type 0 where
  pub kept : Text
  pub rest : Text
  pub piece : Text
  pub is_text : text ≡ kept ++ piece
  pub is_whole : whole ≡ kept ++ rest
  pub no_newline : WithoutNewline piece

-- A round at a frame, also one whose payload is cut off.
frame_step :
    (f : ℕ) (out : Text) (s n : ℕ) (part t : Text)
    → s ≤ 2
    → n < 4294967296
    → min n (length (part ++ t)) ≡ length part
    → demux_loop (suc f) out (header s n ++ part ++ t) ≡ demux_loop f (out ++ part) t
unfolding demux_loop is_header frame_size
frame_step f out s n part t hs hn hm =
    let least : leb s 2 ≡ true = ground arith in
    let size : n / 16777216 * 16777216 + n / 65536 % 256 * 65536 + n / 256 % 256 * 256 + n % 256
        ≡ n =
      omega arith in
    rw (least, size, hm, take-append_length part t, drop-append_length part t)

at_end : (f : ℕ) (out : Text) → demux_loop f out [] ≡ out
unfolding demux_loop
at_end zero out = refl
at_end (suc f) out = refl

-- Where no header stands, the rest is taken as it is.
take_rest :
    (f : ℕ) (out : Text) (c : ℕ) (b : Text)
    → is_header (c ∷ b) ≡ false
    → demux_loop (suc f) out (c ∷ b) ≡ out ++ c ∷ b
unfolding demux_loop
take_rest f [] c b h = rw h
take_rest f (o ∷ out) c b h = rw h

pub demux_loop-mux :
    (f : ℕ) (out : Text) (fs : List (ℕ × Text))
    → All IsFrame fs
    → length (mux fs) ≤ f
    → demux_loop f out (mux fs) ≡ out ++ contents fs
unfolding demux_loop
demux_loop-mux zero out [] h hf = rw append-nil
demux_loop-mux (suc f) out [] h hf = rw append-nil
demux_loop-mux zero out ((s, part) ∷ fs) h hf = elim hf [ ]
demux_loop-mux (suc f) out ((s, part) ∷ fs) h hf =
    let fits : min (length part) (length (part ++ mux fs)) ≡ length part =
      omega (arith, length-append part (mux fs)) in
    frame_step f out s (length part) part (mux fs) h.0.0 h.0.1 fits
    ∙ demux_loop-mux f (out ++ part) fs h.1 (omega (arith, length-append part (mux fs)))
    ∙ append_assoc out part (contents fs)

-- Fewer than eight bytes are no header.
short : (c : ℕ) (b : Text) → length b < 7 → is_header (c ∷ b) ≡ false
unfolding is_header
short c [] h = refl
short c (_ ∷ []) h = refl
short c (_ ∷ _ ∷ []) h = refl
short c (_ ∷ _ ∷ _ ∷ []) h = refl
short c (_ ∷ _ ∷ _ ∷ _ ∷ []) h = refl
short c (_ ∷ _ ∷ _ ∷ _ ∷ _ ∷ []) h = refl
short c (_ ∷ _ ∷ _ ∷ _ ∷ _ ∷ _ ∷ []) h = refl
short c (_ ∷ _ ∷ _ ∷ _ ∷ _ ∷ _ ∷ _ ∷ b) h = ground arith

-- A stream that is cut off in the header of a frame is taken with the piece of it.
cut_header :
    (f k s n : ℕ) (out : Text)
    → k < 7
    → demux_loop (suc f) out (take (suc k) (header s n)) ≡ out ++ take (suc k) (header s n)
cut_header f k s n out hk =
    let b : Text = take k (drop 1 (header s n)) in
    take_rest f out s b (short s b (omega (arith, length-take k (drop 1 (header s n)))))

-- What is made of `b` behind `out`, which has frames cut off.
abbrev Cuts : ℕ → Text → Text → List (ℕ × Text) → Type 0
Cuts f out b fs = (text : Text) × (demux_loop f out b ≡ out ++ text) × Cut (contents fs) text

cut_in_header :
    (f k s n : ℕ) (out rest : Text) (fs : List (ℕ × Text))
    → k < 7
    → WithoutNewline (take 7 (header s n))
    → Cuts (suc f) out (take (suc k) (header s n ++ rest)) fs
cut_in_header f k s n out rest fs hk hn =
    let none_behind : suc k - 8 ≡ 0 = omega arith in
    let read : take (suc k) (header s n ++ rest) ≡ take (suc k) (header s n) =
      take-append (suc k) (header s n) rest
      ∙ rw none_behind (append-nil (take (suc k) (header s n))) in
    (
      take (suc k) (header s n),
      ap (demux_loop (suc f) out) read ∙ cut_header f k s n out hk,
      record {
        kept = [];
        rest = contents fs;
        piece = take (suc k) (header s n);
        is_text = refl;
        is_whole = refl;
        no_newline = All-take_le _ (suc k) 7 (header s n) (omega arith) hn;
      },
    )

cut_in_payload :
    (f j s : ℕ) (out part : Text) (fs : List (ℕ × Text))
    → IsFrame (s, part)
    → j ≤ length part
    → Cuts (suc f) out (header s (length part) ++ take j (part ++ mux fs)) ((s, part) ∷ fs)
cut_in_payload f j s out part fs h hj =
    let none_behind : j - length part ≡ 0 = omega arith in
    let read : take j (part ++ mux fs) ≡ take j part ++ [] =
      take-append j part (mux fs) ∙ rw none_behind in
    let fits : min (length part) (length (take j part ++ [])) ≡ length (take j part) =
      rw append-nil (omega (arith, length-take j part)) in
    (
      take j part,
      ap (λ b. demux_loop (suc f) out (header s (length part) ++ b)) read
          ∙ frame_step f out s (length part) (take j part) [] h.0 h.1 fits
          ∙ at_end f (out ++ take j part),
      record {
        kept = take j part;
        rest = drop j part ++ contents fs;
        piece = [];
        is_text = sym (append-nil (take j part));
        is_whole =
            ap (λ t. t ++ contents fs) (sym (take-append-drop j part))
            ∙ append_assoc (take j part) (drop j part) (contents fs);
        no_newline = tt;
      },
    )

cut_behind :
    (f j s : ℕ) (out part : Text) (fs : List (ℕ × Text))
    → IsFrame (s, part)
    → length part ≤ j
    → Cuts f (out ++ part) (take (j - length part) (mux fs)) fs
    → Cuts (suc f) out (header s (length part) ++ take j (part ++ mux fs)) ((s, part) ∷ fs)
cut_behind f j s out part fs h hj (text, shown, cut) =
    let t : Text = take (j - length part) (mux fs) in
    let read : take j (part ++ mux fs) ≡ part ++ t =
      take-append j part (mux fs) ∙ ap (λ a. a ++ t) (take_all j part hj) in
    let fits : min (length part) (length (part ++ t)) ≡ length part =
      omega (arith, length-append part t) in
    (
      part ++ text,
      ap (λ b. demux_loop (suc f) out (header s (length part) ++ b)) read
          ∙ frame_step f out s (length part) part t h.0 h.1 fits
          ∙ shown
          ∙ append_assoc out part text,
      record {
        kept = part ++ cut.kept;
        rest = cut.rest;
        piece = cut.piece;
        is_text = ap (◌++◌ part) cut.is_text ∙ sym (append_assoc part cut.kept cut.piece);
        is_whole = ap (◌++◌ part) cut.is_whole ∙ sym (append_assoc part cut.kept cut.rest);
        no_newline = cut.no_newline;
      },
    )

nothing : (f : ℕ) (out : Text) (fs : List (ℕ × Text)) → Cuts f out [] fs
nothing f out fs = (
  [],
  at_end f out ∙ sym (append-nil out),
  record {
    kept = [];
    rest = contents fs;
    piece = [];
    is_text = refl;
    is_whole = refl;
    no_newline = tt;
  },
)

pub demux_loop-cut :
    (f k : ℕ) (out : Text) (fs : List (ℕ × Text))
    → All IsFrame fs
    → length (take k (mux fs)) ≤ f
    → Cuts f out (take k (mux fs)) fs
demux_loop-cut f zero out fs h hf = nothing f out fs
demux_loop-cut f (suc k) out [] h hf = nothing f out []
demux_loop-cut zero (suc k) out ((s, part) ∷ fs) h hf = elim hf [ ]
demux_loop-cut (suc f) (suc k) out ((s, part) ∷ fs) h hf = elim (Bool-cases (ltb k 7)) [
  | inl e ↦
      cut_in_header f k s (length part) out (part ++ mux fs) ((s, part) ∷ fs) (ground arith) h.0.2
  | inr e ↦
      let j : ℕ = suc k - 8 in
      let whole_header : take (suc k) (mux ((s, part) ∷ fs))
          ≡ header s (length part) ++ take j (part ++ mux fs) =
        take-append (suc k) (header s (length part)) (part ++ mux fs)
        ∙ ap (λ a. a ++ take j (part ++ mux fs))
            (take_all (suc k) (header s (length part)) (ground arith)) in
      rw whole_header (elim (Bool-cases (leb j (length part))) [
        | inl l ↦ cut_in_payload f j s out part fs h.0 (ground arith)
        | inr l ↦ cut_behind f j s out part fs h.0 (ground arith) (
            demux_loop-cut f (j - length part) (out ++ part) fs h.1 (
              omega (
                arith,
                length-take (suc k) (mux ((s, part) ∷ fs)),
                length-take (j - length part) (mux fs),
                length-append part (mux fs),
              )))
      ])
]
