-- ===== src/Common/Text.antt =====
-- Decimal text of a number, `fmt.Sprint` of an unsigned integer, and texts that differ.
use Prim.Native.Nat.{ℕ, zero, suc, ◌/◌, ◌%◌}
use Prim.Native.String.{String, ◌++◌ as concat}
use mathlib.Core.Path.{◌≡◌, sym, ◌∙◌}
use mathlib.Core.Logic.{◌≢◌}
use mathlib.Core.Bool.{false, false≢true}
use text.Mathlib.Text.{◌==◌ as str_eq}
use text.Mathlib.TextEquality.{eq_iff}
use chaos_test.Common.Tests.{ltb, ◌==◌, if◌then◌else◌}

digit : ℕ → String
digit d =
    if d == 0
    then "0"
    else if d == 1
    then "1"
    else if d == 2
    then "2"
    else if d == 3
    then "3"
    else if d == 4
    then "4"
    else if d == 5
    then "5"
    else if d == 6
    then "6"
    else if d == 7
    then "7"
    else if d == 8
    then "8"
    else "9"

digits : ℕ → ℕ → String
digits zero n = ""
digits (suc f) n =
    let rest = concat (digits f (n / 10)) (digit (n % 10)) in if ltb n 10 then digit n else rest

-- A number has no more digits than its value, or one.
unfoldable pub itoa : ℕ → String
unfolding digits digit
itoa n = digits (suc n) n

pub unequal : (s t : String) → str_eq s t ≡ false → s ≢ t
unequal s t h e = false≢true (sym h ∙ (eq_iff s t).1 e)
