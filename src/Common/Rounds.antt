-- ===== src/Common/Rounds.antt =====
-- A loop that looks again until it has a result: round i of it answers `some` result, or `none` to go
-- on. `rounds f step i` makes at most f rounds from round i on.
use Prim.Native.Nat.{ℕ, zero, suc, ◌+◌, ◌*◌, ◌≤◌, ◌<◌}
use mathlib.Core.Path.{◌≡◌}
use mathlib.Core.Logic.{◌⊎◌, inl, inr}
use mathlib.Core.Option.{Option, none, some}
use native.Mathlib.Omega.{arith}
use chaos_test.Common.Tests.{ltb, ◌==◌, Bool-cases, Option-cases}

module _ {ℓ} {R : Type ℓ} where
  unfoldable pub rounds : ℕ → (ℕ → Option R) → ℕ → Option R
  rounds zero step i = none
  rounds (suc f) step i =
      let later = rounds f step (i + 1) in elim (step i) [ none ↦ later | some r ↦ some r ]

  -- The first round from `i` on that has a result.
  pub record IsFirst (step : ℕ → Option R) (i : ℕ) (r : R) : Type ℓ where
    pub at : ℕ
    pub after : i ≤ at
    pub result : step at ≡ some r
    pub before : (j : ℕ) → i ≤ j → j < at → step j ≡ none

  -- No round that has a result stands before the first one.
  pub IsFirst-le :
      (step : ℕ → Option R) (i k : ℕ) {r r' : R} (h : IsFirst step i r)
      → i ≤ k
      → step k ≡ some r'
      → h.at ≤ k
  IsFirst-le step i k h low e = elim (Bool-cases (ltb k h.at)) [
    | inl below ↦ let going : step k ≡ none = h.before k low (ground (arith, below)) in cc
    | inr other ↦ ground (arith, other)
  ]

  IsFirst-here : (step : ℕ → Option R) (i : ℕ) {r : R} → step i ≡ some r → IsFirst step i r
  IsFirst-here step i e = record {
    at = i;
    after = omega arith;
    result = e;
    before = λ j low high. absurd (omega arith);
  }

  IsFirst-later :
      (step : ℕ → Option R) (i : ℕ) {r : R}
      → step i ≡ none
      → IsFirst step (i + 1) r
      → IsFirst step i r
  IsFirst-later step i {r} e h = record {
    at = h.at;
    after = omega (arith, h.after);
    result = h.result;
    before = λ j low high. elim (Bool-cases (j == i)) [
      | inl same ↦ let it : j ≡ i = ground (arith, same) in rw it e
      | inr other ↦ h.before j (ground (arith, other)) high
    ];
  }

  -- Where some round that the fuel reaches has a result, the loop returns that of the first one.
  pub rounds-IsFirst :
      (f : ℕ) (step : ℕ → Option R) (i k : ℕ) {r : R}
      → step k ≡ some r
      → i ≤ k
      → k < i + f
      → (r' : R) × (rounds f step i ≡ some r') × IsFirst step i r'
  unfolding rounds
  rounds-IsFirst zero step i k e low high = absurd (omega arith)
  rounds-IsFirst (suc f) step i k {r} e low high = elim (Option-cases (step i)) [
    | inr (r', now) ↦ (r', rw (rounds, now), IsFirst-here step i now)
    | inl going ↦ elim (Bool-cases (i == k)) [
      | inl same ↦ let it : i ≡ k = ground (arith, same) in cc
      | inr other ↦
          let rest = rounds-IsFirst f step (i + 1) k e (ground (arith, other)) (omega arith) in
          (rest.0, rw (rounds, going) rest.1, IsFirst-later step i going rest.2)
    ]
  ]

-- A loop that is late at the latest when its clock is behind `deadline`, and whose clock moves by
-- `pace` before it looks again, ends within the rounds that fit before the deadline, and one more.
module _ {ℓ} {R : Type ℓ} (step : ℕ → Option R) (clock : ℕ → ℕ) (pace deadline : ℕ) where
  reaches :
      ((i : ℕ) → step i ≡ none → clock i + pace ≤ clock (i + 1))
      → (n : ℕ) → ((k : ℕ) × (r : R) × (k < n) × (step k ≡ some r)) ⊎ (clock 0 + n * pace ≤ clock n)
  reaches paced zero = inr (omega arith)
  reaches paced (suc n) = elim (reaches paced n) [
    | inl (k, r, low, e) ↦ inl (k, r, omega arith, e)
    | inr far ↦ elim (Option-cases (step n)) [
      | inr (r, e) ↦ inl (n, r, omega arith, e)
      | inl going ↦
          let next : clock n + pace ≤ clock (suc n) =
            let same : n + 1 ≡ suc n = omega arith in rw (← same) (paced n going) in
          inr (grind (arith, far, next))
    ]
  ]

  pub rounds-ends :
      (n : ℕ)
      → ((i : ℕ) → step i ≡ none → clock i + pace ≤ clock (i + 1))
      → ((i : ℕ) → deadline < clock i → (r : R) × (step i ≡ some r))
      → deadline < clock 0 + n * pace
      → (r : R) × (rounds (suc n) step 0 ≡ some r) × IsFirst step 0 r
  rounds-ends n paced late enough = elim (reaches paced n) [
    | inl (k, r, low, e) ↦ rounds-IsFirst (suc n) step 0 k e (omega arith) (omega arith)
    | inr far ↦
        let end = late n (omega arith) in
        rounds-IsFirst (suc n) step 0 n end.1 (omega arith) (omega arith)
  ]
