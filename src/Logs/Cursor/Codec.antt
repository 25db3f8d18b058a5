-- ===== src/Logs/Cursor/Codec.antt =====
-- `Encode` and `DecodeCursor` of internal/logs/cursor.go are inverse.
use chaos_test.Common.{
  ℕ, zero, suc, ◌+◌, ◌*◌, ◌/◌, ◌%◌, ◌^◌, ◌≤◌, ◌<◌, ◌≡◌, ◌≢◌, refl, sym, ap, ◌∙◌, inl, inr, ℤ, pos,
  negsuc, false, some, [], ◌∷◌, ◌++◌, arith, ltb, ◌==◌, Bool-cases, Option-cases, All, All-append,
}
use chaos_test.Logs.Text.{Text, split_at}
use chaos_test.Logs.Cursor.{
  Cursor, ok, digits, show_nat, show_int, encode, digit_value, read_digits, parse_uint, parse_int,
  fields, three, decode,
}

abbrev IsDigit : ℕ → Type 0
IsDigit c = (48 ≤ c) × (c ≤ 57)

abbrev IsDigits : Text → Type 0
IsDigits s = All IsDigit s

big_enough : (n : ℕ) → ltb n 10 ≡ false → n / 10 < n
big_enough n h = ground arith

digits-IsDigits : (f n : ℕ) → IsDigits (digits f n)
unfolding digits
digits-IsDigits zero n = tt
digits-IsDigits (suc f) n = elim (Bool-cases (ltb n 10)) [
  | inl small ↦ rw small (ground arith, tt)
  | inr big ↦ rw big (
      All-append IsDigit (digits f (n / 10)) ((48 + n % 10) ∷ []) (digits-IsDigits f (n / 10))
        ((omega arith, omega arith), tt))
]

digit_value-digit : (d : ℕ) → d < 10 → digit_value (48 + d) ≡ some d
unfolding digit_value
digit_value-digit d h = ground arith

read_digits-append :
    (acc : ℕ) (xs : Text) (c v d : ℕ)
    → read_digits acc xs ≡ some v
    → digit_value c ≡ some d
    → read_digits acc (xs ++ c ∷ []) ≡ some (v * 10 + d)
unfolding read_digits
read_digits-append acc [] c v d h e = ground arith
read_digits-append acc (x ∷ xs) c v d h e = elim (Option-cases (digit_value x)) [
  | inl bad ↦ absurd (ground arith)
  | inr (k, good) ↦
      let h' : read_digits (acc * 10 + k) xs ≡ some v = ground arith in
      ground (arith, read_digits-append (acc * 10 + k) xs c v d h' e)
]

read_digits-digits : (f n : ℕ) → n < f → read_digits 0 (digits f n) ≡ some n
unfolding digits read_digits
read_digits-digits zero n h = elim h [ ]
read_digits-digits (suc f) n h = elim (Bool-cases (ltb n 10)) [
  | inl small ↦ ground (arith, small, digit_value-digit n)
  | inr big ↦ rw big (
      read_digits-append 0 (digits f (n / 10)) (48 + n % 10) (n / 10) (n % 10)
        (read_digits-digits f (n / 10) (omega (arith, big_enough n big)))
        (digit_value-digit (n % 10) (omega arith))
      ∙ ap (λ k. some k) (omega arith))
]

-- No colon.
abbrev IsPlain : Text → Type 0
IsPlain s = All (λ (c : ℕ). (c == 58) ≡ false) s

digits-IsPlain : (s : Text) → IsDigits s → IsPlain s
digits-IsPlain [] h = tt
digits-IsPlain (c ∷ s) h = (ground arith, digits-IsPlain s h.1)

split_at-plain : (s rest : Text) → IsPlain s → split_at 58 (s ++ 58 ∷ rest) ≡ s ∷ split_at 58 rest
unfolding split_at
split_at-plain [] rest h = refl
split_at-plain (c ∷ s) rest h = rw (h.0, split_at-plain s rest h.1)

split_at-last : (s : Text) → IsPlain s → split_at 58 s ≡ s ∷ []
unfolding split_at
split_at-last [] h = refl
split_at-last (c ∷ s) h = rw (h.0, split_at-last s h.1)

started : (xs : Text) (c : ℕ) → (d : ℕ) × (s : Text) × (xs ++ c ∷ [] ≡ d ∷ s)
started [] c = (c, [], refl)
started (x ∷ xs) c = (x, xs ++ c ∷ [], refl)

show_nat_starts : (n : ℕ) → (c : ℕ) × (s : Text) × (show_nat n ≡ c ∷ s)
unfolding show_nat
show_nat_starts n = elim (Bool-cases (ltb n 10)) [
  | inl small ↦ (48 + n, [], rw small refl)
  | inr big ↦ let (c, s, e) = started (digits n (n / 10)) (48 + n % 10) in (c, s, rw big e)
]

show_nat-IsDigits : (n : ℕ) → IsDigits (show_nat n)
unfolding show_nat
show_nat-IsDigits n = digits-IsDigits (suc n) n

read_digits-show_nat : (n : ℕ) → read_digits 0 (show_nat n) ≡ some n
unfolding show_nat
read_digits-show_nat n = read_digits-digits (suc n) n (omega arith)

parse_uint-read :
    (c n : ℕ) (s : Text) → read_digits 0 (c ∷ s) ≡ some n → n < 2 ^ 64 → parse_uint (c ∷ s) ≡ some n
unfolding parse_uint
parse_uint-read c n s h fits = ground arith

parse_uint-show_nat : (n : ℕ) → n < 2 ^ 64 → parse_uint (show_nat n) ≡ some n
parse_uint-show_nat n fits =
    let (c, s, e) = show_nat_starts n in
    ap parse_uint e ∙ parse_uint-read c n s (rw (sym e) (read_digits-show_nat n)) fits

moved : {s t : Text} → s ≡ t → IsDigits s → IsDigits t
moved e h = rw (sym e) h

-- What an int64 holds.
abbrev pub Fits : ℤ → Type 0
Fits (pos n) = n < 2 ^ 63
Fits (negsuc n) = n < 2 ^ 63

parse_int-digit :
    (c n : ℕ) (s : Text)
    → IsDigit c
    → parse_uint (c ∷ s) ≡ some n
    → n < 2 ^ 63
    → parse_int (c ∷ s) ≡ some (pos n)
unfolding parse_int
parse_int-digit c n s d h fits = ground arith

parse_int-minus :
    (n : ℕ) (s : Text)
    → parse_uint s ≡ some (suc n)
    → n < 2 ^ 63
    → parse_int (45 ∷ s) ≡ some (negsuc n)
unfolding parse_int
parse_int-minus n s h fits = rw h (ground arith)

parse_int-show_int : (z : ℤ) → Fits z → parse_int (show_int z) ≡ some z
unfolding show_int
parse_int-show_int (pos n) fits =
    let (c, s, e) = show_nat_starts n in
    let d : IsDigits (c ∷ s) = moved e (show_nat-IsDigits n) in
    ap parse_int e
    ∙ parse_int-digit c n s d.0 (ap parse_uint (sym e) ∙ parse_uint-show_nat n (omega arith)) fits
parse_int-show_int (negsuc n) fits =
    parse_int-minus n (show_nat (suc n)) (parse_uint-show_nat (suc n) (omega arith)) fits

show_int-IsPlain : (z : ℤ) → IsPlain (show_int z)
unfolding show_int
show_int-IsPlain (pos n) = digits-IsPlain (show_nat n) (show_nat-IsDigits n)
show_int-IsPlain (negsuc n) = (refl, digits-IsPlain (show_nat (suc n)) (show_nat-IsDigits (suc n)))

abbrev pub written : ℤ → ℕ → ℕ → Cursor
written ns mark n = record {
  ts = record { nanos = ns; zone = pos 0 };
  mark = mark;
  scanned = pos n;
}

parts :
    (ns : ℤ) (mark n : ℕ)
    → split_at 58 (encode (written ns mark n)) ≡ show_int ns ∷ show_nat mark ∷ show_int (pos n) ∷ []
unfolding encode
parts ns mark n =
    split_at-plain (show_int ns) _ (show_int-IsPlain ns)
    ∙ ap (◌∷◌ (show_int ns)) (
        split_at-plain (show_nat mark) _ (digits-IsPlain (show_nat mark) (show_nat-IsDigits mark))
        ∙ ap (◌∷◌ (show_nat mark)) (split_at-last (show_int (pos n)) (show_int-IsPlain (pos n))))

decode-three : (s : Text) → s ≢ [] → decode s ≡ three (split_at 58 s)
unfolding decode
decode-three [] h = absurd (h refl)
decode-three (c ∷ s) h = refl

with_colon : (xs ys : Text) → xs ++ 58 ∷ ys ≢ []
with_colon [] ys h = cc
with_colon (x ∷ xs) ys h = cc

-- A cursor in UTC whose instant and position an int64 holds and whose mark a uint64 holds survives
-- encoding and decoding.
pub decode-encode :
    (ns : ℤ) (mark n : ℕ)
    → Fits ns
    → mark < 2 ^ 64
    → n < 2 ^ 63
    → decode (encode (written ns mark n)) ≡ ok (written ns mark n)
unfolding three fields
decode-encode ns mark n a b c =
    decode-three (encode (written ns mark n)) (unfold encode in with_colon (show_int ns) _)
    ∙ ap three (parts ns mark n)
    ∙ rw (parse_int-show_int ns a, parse_uint-show_nat mark b, parse_int-show_int (pos n) c) refl
