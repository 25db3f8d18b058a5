-- ===== src/Scenario/Eval/Wrapping.antt =====
-- internal/scenario/executor.go: the arithmetic of `eval` on int64, which wraps.
use chaos_test.Common.{ℕ, ◌+◌, ◌-◌, ◌%◌, ◌≡◌, refl, ap, sym, ◌∙◌, arith, ℤ, pos, negsuc}
use chaos_test.Common.Int.{◌+ℤ◌, ◌-ℤ◌, pos_part, neg_part}
use chaos_test.Scenario.Eval.{int64, from_bits, Operator, plus, minus, apply_operator}

-- The 64 bits of an integer.
bits : ℤ → ℕ
bits (pos n) = n % 18446744073709551616
bits (negsuc n) = 18446744073709551615 - n % 18446744073709551616

int64-bits : (a : ℤ) → int64 a ≡ from_bits (bits a)
unfolding int64 bits
int64-bits (pos n) = refl
int64-bits (negsuc n) = refl

bits-int64 : (a : ℤ) → bits (int64 a) ≡ bits a
unfolding int64 bits from_bits
bits-int64 (pos n) = ground arith
bits-int64 (negsuc n) = ground arith

bits-parts :
    (a : ℤ) → (bits a + neg_part a) % 18446744073709551616 ≡ pos_part a % 18446744073709551616
unfolding bits
bits-parts (pos n) = omega arith
bits-parts (negsuc n) = omega arith

bits-sum : (a b : ℤ) → bits (a +ℤ b) ≡ (bits a + bits b) % 18446744073709551616
unfolding bits ◌+ℤ◌
bits-sum a b = ground arith

bits-difference :
    (a b : ℤ) → bits (a -ℤ b) ≡ (bits a + (18446744073709551616 - bits b)) % 18446744073709551616
unfolding bits ◌-ℤ◌
bits-difference a b = ground arith

int64-by_bits : (a b : ℤ) → bits a ≡ bits b → int64 a ≡ int64 b
int64-by_bits a b h = int64-bits a ∙ ap from_bits h ∙ sym (int64-bits b)

-- What is added to a sum or a difference can be added to its left side.
pub regroup :
    (op : Operator) (z m k : ℤ)
    → int64 (z +ℤ apply_operator op m k) ≡ apply_operator op (int64 (z +ℤ m)) k
unfolding apply_operator
regroup plus z m k = int64-by_bits (z +ℤ int64 (m +ℤ k)) (int64 (z +ℤ m) +ℤ k) (
    omega (
      arith,
      bits-sum z (int64 (m +ℤ k)),
      bits-int64 (m +ℤ k),
      bits-sum m k,
      bits-sum (int64 (z +ℤ m)) k,
      bits-int64 (z +ℤ m),
      bits-sum z m,
    ))
regroup minus z m k = int64-by_bits (z +ℤ int64 (m -ℤ k)) (int64 (z +ℤ m) -ℤ k) (
    omega (
      arith,
      bits-sum z (int64 (m -ℤ k)),
      bits-int64 (m -ℤ k),
      bits-difference m k,
      bits-difference (int64 (z +ℤ m)) k,
      bits-int64 (z +ℤ m),
      bits-sum z m,
    ))
