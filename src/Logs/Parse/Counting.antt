-- ===== src/Logs/Parse/Counting.antt =====
-- The physical lines of a window of internal/logs/parse.go, and the numbers of its entries.
use native.Mathlib.Nat.{zero-add}
use chaos_test.Common.{
  ℕ, ◌+◌, ◌≡◌, refl, sym, ap, ◌∙◌, inl, inr, ℤ, pos, Bool, Option, none, some, List, [], ◌∷◌, ◌++◌,
  map, arith, if◌then◌else◌, length, length-append, Bool-cases, All,
}
use chaos_test.Common.Int.{◌+ℤ◌}
use chaos_test.Logs.Text.{Text, text_eq, split_at, trim_suffix}
use chaos_test.Logs.Line.{Line, Time, raw_count, raw_sum}
use chaos_test.Logs.Parse.{
  Clock, attach, stamped, place, scan_one, scan_all, scan, lift_cause, parse_structured,
  split_runtime_stamp,
}

pub raw_sum-append : (xs ys : List Line) → raw_sum (xs ++ ys) ≡ raw_sum xs + raw_sum ys
raw_sum-append [] ys = omega arith
raw_sum-append (x ∷ xs) ys = omega (arith, raw_sum-append xs ys)

-- An entry's number is the number of physical lines before it, counted from `n`.
abbrev pub Numbered : ℤ → ℕ → List Line → Type 0
Numbered start n [] = Unit
Numbered start n (l ∷ ls) = (l.seq ≡ start +ℤ pos n) × Numbered start (n + raw_count l) ls

abbrev pub AreFresh : List Line → Type 0
AreFresh ls = All (λ (l : Line). l.cont ≡ []) ls

Numbered-append_one :
    (start : ℤ) (n : ℕ) (ls : List Line) (l : Line)
    → Numbered start n ls
    → l.seq ≡ start +ℤ pos (n + raw_sum ls)
    → Numbered start n (ls ++ l ∷ [])
Numbered-append_one start n [] l h e = (e ∙ ap (λ k. start +ℤ pos k) (omega arith), tt)
Numbered-append_one start n (x ∷ ls) l h e = (
  h.0,
  Numbered-append_one start (n + raw_count x) ls l h.1 (e ∙ ap (λ k. start +ℤ pos k) (omega arith)),
)

module _ (clock : Clock) where
  raw_sum-attach :
      (k : Bool) (rest text : Text) (l : Line) (ls : List Line)
      → raw_sum (attach clock k rest text (l ∷ ls)) ≡ raw_sum (l ∷ ls) + 1
  unfolding attach
  raw_sum-attach k rest text l [] = omega (arith, length-append l.cont (rest ∷ []))
  raw_sum-attach k rest text l (m ∷ ls) = omega (arith, raw_sum-attach k rest text m ls)

  Numbered-attach :
      (start : ℤ) (n : ℕ) (k : Bool) (rest text : Text) (ls : List Line)
      → Numbered start n ls
      → Numbered start n (attach clock k rest text ls)
  unfolding attach
  Numbered-attach start n k rest text [] h = tt
  Numbered-attach start n k rest text (l ∷ []) h = (h.0, tt)
  Numbered-attach start n k rest text (l ∷ m ∷ ls) h =
      (h.0, Numbered-attach start (n + raw_count l) k rest text (m ∷ ls) h.1)

  pub record Counted (start : ℤ) (acc : List Line × ℕ) : Type 0 where
    pub total : acc.1 ≡ raw_sum acc.0
    pub numbers : Numbered start 0 acc.0

  parsed-cont : (rest : Text) (l : Line) → parse_structured clock rest ≡ some l → l.cont ≡ []
  unfolding parse_structured
  parsed-cont rest l h = ground arith

  place-Counted :
      (start : ℤ) (k : Bool) (n : ℕ) (ts : Time) (text rest : Text) (o : Option Line)
      (ls : List Line)
      → ((l : Line) → o ≡ some l → l.cont ≡ [])
      → Counted start (ls, n)
      → Counted start (place clock start k n ts text rest o ls, n + 1)
  unfolding place
  place-Counted start k n ts text rest (some l) ls fresh h = record {
    total = omega (
      arith,
      h.total,
      raw_sum-append ls (stamped clock start k n ts text l ∷ []),
      ap length (fresh l refl),
    );
    numbers =
        Numbered-append_one start 0 ls (stamped clock start k n ts text l) h.numbers
          (ap (λ j. start +ℤ pos j) (omega (arith, h.total)));
  }
  place-Counted start k n ts text rest none [] fresh h = record {
    total = omega (arith, h.total);
    numbers = (ap (λ j. start +ℤ pos j) h.total, tt);
  }
  place-Counted start k n ts text rest none (l ∷ ls) fresh h = record {
    total = omega (arith, h.total, raw_sum-attach k rest text l ls);
    numbers = Numbered-attach start 0 k rest text (l ∷ ls) h.numbers;
  }

  scan_all-Counted :
      (start : ℤ) (k : Bool) (ts : List Text) (acc : List Line × ℕ)
      → Counted start acc
      → Counted start (scan_all clock start k ts acc)
        × ((scan_all clock start k ts acc).1 ≡ acc.1 + length ts)
  unfolding scan_all scan_one
  scan_all-Counted start k [] acc h = (h, omega arith)
  scan_all-Counted start k (t ∷ ts) (ls, n) h =
      let text = trim_suffix 13 t in
      let rest : Text = (split_runtime_stamp clock text).1 in
      let r = scan_all-Counted start k ts _ (
        place-Counted start k n (split_runtime_stamp clock text).0 text rest
          (parse_structured clock rest) ls (λ l. parsed-cont rest l) h) in
      (r.0, omega (arith, r.1))

  lift_keeps :
      (l : Line) → ((lift_cause clock l).seq ≡ l.seq) × ((lift_cause clock l).cont ≡ l.cont)
  unfolding lift_cause
  lift_keeps l = ground arith

  lifted :
      (start : ℤ) (n : ℕ) (ls : List Line)
      → Numbered start n ls
      → Numbered start n (map (lift_cause clock) ls)
        × (raw_sum (map (lift_cause clock) ls) ≡ raw_sum ls)
  lifted start n [] h = (tt, refl)
  lifted start n (l ∷ ls) h =
      let k : raw_count (lift_cause clock l) ≡ raw_count l =
        ap (λ (c : List Text). 1 + length c) (lift_keeps l).1 in
      let rest = lifted start (n + raw_count l) ls h.1 in
      (((lift_keeps l).0 ∙ h.0, rw k rest.0), omega (arith, k, rest.1))

  -- `Scan` folds every physical line into exactly one entry: the number that it returns is that of
  -- the lines of the window, the counts of the entries add up to it, and the number of each entry is
  -- the start plus the physical lines before it.
  pub scan-Counted :
      (start : ℤ) (k : Bool) (raw : Text)
      → Counted start (scan clock start k raw)
        × ((scan clock start k raw).1 ≡ (
            if text_eq (trim_suffix 10 raw) []
            then 0
            else length (split_at 10 (trim_suffix 10 raw))))
  unfolding scan
  scan-Counted start k raw = elim (Bool-cases (text_eq (trim_suffix 10 raw) [])) [
    | inl empty ↦ rw empty (record { total = refl; numbers = tt }, refl)
    | inr some_text ↦
        let parts = split_at 10 (trim_suffix 10 raw) in
        let c = scan_all-Counted start k parts ([], 0) (record { total = refl; numbers = tt }) in
        let m = lifted start 0 (scan_all clock start k parts ([], 0)).0 c.0.numbers in
        rw some_text
          (record { total = c.0.total ∙ sym m.1; numbers = m.0 }, c.1 ∙ zero-add (length parts))
  ]
