-- ===== src/Logs/Page/Resume.antt =====
-- A page of internal/logs/page.go that carries on where its cursor stands.
use chaos_test.Common.{
  ℕ, ◌+◌, ◌≡◌, refl, sym, ap, ◌∙◌, inl, inr, ℤ, pos, true, false, none, some, List, [], ◌∷◌, ◌++◌,
  arith, All, Option-cases,
}
use chaos_test.Common.Int.{◌+ℤ◌, ◌-ℤ◌, +ℤ_parts, -ℤ_parts, eq_of_parts}
use chaos_test.Logs.Text.{Text}
use chaos_test.Logs.Line.{Line, raw_count, raw_sum}
use chaos_test.Logs.Cursor.{Cursor, mark_of, locate, is_at, encode}
use chaos_test.Logs.Filter.{Texts}
use chaos_test.Logs.Parse.{Clock, scan}
use chaos_test.Logs.Parse.Counting.{Numbered, Counted, scan-Counted, raw_sum-append}
use chaos_test.Logs.Page.{
  Request, page_of, build, resume, renumber, advance, last_stamped, stand_at,
}

abbrev pub Passed : Cursor → List Line → Type 0
Passed c newer = All (λ (l : Line). is_at c l ≡ false) newer

locate-none : (c : Cursor) (newer : List Line) → Passed c newer → locate c newer ≡ none
unfolding locate
locate-none c [] h = refl
locate-none c (l ∷ ls) h = rw (locate-none c ls h.1, h.0)

locate-append :
    (c : Cursor) (older newer : List Line) (l : Line)
    → is_at c l ≡ true
    → Passed c newer
    → locate c (older ++ l ∷ newer) ≡ some (older ++ l ∷ [], newer)
unfolding locate
locate-append c [] newer l at h = rw (locate-none c newer h, at)
locate-append c (x ∷ xs) newer l at h = rw (locate-append c xs newer l at h)

Numbered-at :
    (start : ℤ) {n m : ℕ} (ls : List Line) → n ≡ m → Numbered start n ls → Numbered start m ls
Numbered-at start ls e h = rw (sym e) h

Numbered-append_right :
    (start : ℤ) (n : ℕ) (xs ys : List Line)
    → Numbered start n (xs ++ ys)
    → Numbered start (n + raw_sum xs) ys
Numbered-append_right start n [] ys h = Numbered-at start ys (omega arith) h
Numbered-append_right start n (x ∷ xs) ys h =
    Numbered-at start ys (omega arith) (Numbered-append_right start (n + raw_count x) xs ys h.1)

shifted :
    (scanned : ℤ) (base k : ℕ)
    → (pos 0 +ℤ pos (base + k)) +ℤ (scanned -ℤ pos base) ≡ scanned +ℤ pos k
shifted scanned base k = eq_of_parts _ _ (
    omega (
      arith,
      +ℤ_parts (pos 0) (pos (base + k)),
      -ℤ_parts scanned (pos base),
      +ℤ_parts (pos 0 +ℤ pos (base + k)) (scanned -ℤ pos base),
      +ℤ_parts scanned (pos k),
    ))

Numbered-renumber :
    (scanned : ℤ) (base k : ℕ) (ls : List Line)
    → Numbered (pos 0) (base + k) ls
    → Numbered scanned k (renumber (scanned -ℤ pos base) ls)
unfolding renumber
Numbered-renumber scanned base k [] h = tt
Numbered-renumber scanned base k (l ∷ ls) h = (
  rw h.0 (shifted scanned base k),
  Numbered-renumber scanned base (k + raw_count l) ls (Numbered-at (pos 0) ls (omega arith) h.1),
)

advanced :
    (scanned : ℤ) (base fresh : ℕ)
    → (scanned -ℤ pos base) +ℤ pos (base + fresh) ≡ scanned +ℤ pos fresh
advanced scanned base fresh = eq_of_parts _ _ (
    omega (
      arith,
      -ℤ_parts scanned (pos base),
      +ℤ_parts (scanned -ℤ pos base) (pos (base + fresh)),
      +ℤ_parts scanned (pos fresh),
    ))

raw_sum-renumber : (offset : ℤ) (ls : List Line) → raw_sum (renumber offset ls) ≡ raw_sum ls
unfolding renumber
raw_sum-renumber offset [] = refl
raw_sum-renumber offset (l ∷ ls) = omega (arith, raw_sum-renumber offset ls)

shift : ℤ → Line → Line
shift offset l = record l { seq = l.seq +ℤ offset }

last_stamped-renumber :
    (offset : ℤ) (ls : List Line)
    → last_stamped (renumber offset ls)
      ≡ elim (last_stamped ls) [ none ↦ none | some l ↦ some (shift offset l) ]
unfolding renumber last_stamped shift
last_stamped-renumber offset [] = refl
last_stamped-renumber offset (l ∷ ls) =
    let ih = last_stamped-renumber offset ls in
    elim (Option-cases (last_stamped ls)) [
      | inl e ↦ rw (ih, e) (ground arith)
      | inr (last, e) ↦ rw (ih, e)
    ]

-- Where the next cursor stands: at the last of the new entries with a timestamp, or where the
-- cursor stood.
abbrev pub stand_behind : Cursor → List Line → Cursor
stand_behind c newer = elim (last_stamped newer) [
  | none ↦ c
  | some last ↦ stand_at last (c.scanned +ℤ pos (raw_sum newer))
]

advance_behind :
    (c : Cursor) (window newer : List Line) (base total : ℕ)
    → total ≡ base + raw_sum newer
    → advance c window (renumber (c.scanned -ℤ pos base) newer) (c.scanned -ℤ pos base) total true
      ≡ stand_behind c newer
unfolding advance mark_of shift
advance_behind c window newer base total e =
    let moved = last_stamped-renumber (c.scanned -ℤ pos base) newer in
    elim (Option-cases (last_stamped newer)) [
      | inl f ↦ rw (advance, moved, stand_behind, f)
      | inr (last, f) ↦
          rw (advance, moved, stand_behind, f, e, advanced c.scanned base (raw_sum newer))
    ]

module _ (clock : Clock) (txt : Texts) where
  resume_at :
      (req : Request) (older newer : List Line) (l : Line)
      → req.has_cursor ≡ true
      → is_at req.cursor l ≡ true
      → Passed req.cursor newer
      → resume req (older ++ l ∷ newer) ≡ record {
        fresh = newer;
        offset = req.cursor.scanned -ℤ pos (raw_sum (older ++ l ∷ []));
        lost = none;
      }
  unfolding resume
  resume_at req older newer l has at h = rw (has, locate-append req.cursor older newer l at h)

  page_resumed :
      (req : Request) (older newer : List Line) (l : Line) (total : ℕ)
      → req.has_cursor ≡ true
      → is_at req.cursor l ≡ true
      → Passed req.cursor newer
      → Counted clock (pos 0) (older ++ l ∷ newer, total)
      → let p = page_of clock txt req (older ++ l ∷ newer) total in
        let r = resume req (older ++ l ∷ newer) in
        (r.fresh ≡ newer)
        × Numbered req.cursor.scanned 0 (renumber r.offset r.fresh)
        × (p.reset ≡ false)
        × (p.scanned ≡ raw_sum newer)
        × (p.next_cursor ≡ encode (stand_behind req.cursor newer))
  unfolding page_of
  page_resumed req older newer l total has at h c =
      let base = raw_sum (older ++ l ∷ []) in
      let sum : raw_sum (older ++ l ∷ newer) ≡ base + raw_sum newer =
        omega (arith, raw_sum-append older (l ∷ newer), raw_sum-append older (l ∷ [])) in
      let numbers = Numbered-append_right (pos 0) 0 older (l ∷ newer) c.numbers in
      rw (resume_at req older newer l has at h, has)
        (
          refl,
          Numbered-renumber req.cursor.scanned base 0 newer
              (Numbered-at (pos 0) newer (omega (arith, raw_sum-append older (l ∷ []))) numbers.1),
          refl,
          raw_sum-renumber _ newer,
          ap encode
              (advance_behind req.cursor (older ++ l ∷ newer) newer base total (c.total ∙ sum)),
        )

  -- Where the cursor's entry stands in the window, and none behind it looks the same, the page is
  -- not a reset: what is fresh is exactly the entries behind it, numbered on from the physical
  -- lines that the cursor has counted, and the next cursor stands at the last of them that has a
  -- timestamp with their physical lines counted in, or where the cursor stood if none has one.
  pub resumed :
      (raw : Text) (req : Request) (older newer : List Line) (l : Line)
      → req.has_cursor ≡ true
      → (scan clock (pos 0) req.keep_raw raw).0 ≡ older ++ l ∷ newer
      → is_at req.cursor l ≡ true
      → Passed req.cursor newer
      → let p = build clock txt raw req in
        let r = resume req (scan clock (pos 0) req.keep_raw raw).0 in
        (r.fresh ≡ newer)
        × Numbered req.cursor.scanned 0 (renumber r.offset r.fresh)
        × (p.reset ≡ false)
        × (p.scanned ≡ raw_sum newer)
        × (p.next_cursor ≡ encode (stand_behind req.cursor newer))
  unfolding build
  resumed raw req older newer l has e at h =
      let c = (scan-Counted clock (pos 0) req.keep_raw raw).0 in
      let d : Counted clock (pos 0) (older ++ l ∷ newer, (scan clock (pos 0) req.keep_raw raw).1) =
        record { total = c.total ∙ ap raw_sum e; numbers = rw (sym e) c.numbers } in
      rw e (page_resumed req older newer l _ has at h d)
