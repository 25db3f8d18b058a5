-- ===== src/Wallet/Shapes/Sized.antt =====
-- How many outputs a shape of bsv-regtest/walletd/tx.go has, and what they are worth.
use chaos_test.Common.{
  ℕ, zero, suc, ◌+◌, ◌*◌, ◌%◌, ◌^◌, ◌≤◌, ◌<◌, ◌≡◌, refl, sym, ap, inl, inr, ℤ, pos, negsuc, String,
  ◌||◌, Option, none, some, List, [], ◌∷◌, arith, ltb, ◌==◌, str_eq, length, Bool-cases,
}
use chaos_test.Logs.Text.{trim_space}
use chaos_test.Alerts.{Bytes}
use chaos_test.Alerts.Hex.{decode_hex}
use chaos_test.Wallet.Shapes.{
  TxRequest, ActionOutput, Built, refused, built, Scripts, ◌>>=◌, or_refuse, lock_for, fan, Outs,
  one, payment, data_of, op_return_output, fanned, fanout, custom, outputs_for,
}

unfoldable pub worth : List ActionOutput → ℕ
worth [] = 0
worth (o ∷ os) = o.satoshis + worth os

length-fan : (lock : Bytes) (sats n i left : ℕ) → length (fan lock sats n i left) ≡ left
unfolding fan
length-fan lock sats n i zero = refl
length-fan lock sats n i (suc left) = ap suc (length-fan lock sats n (i + 1) left)

worth-fan : (lock : Bytes) (sats n i left : ℕ) → worth (fan lock sats n i left) ≡ sats * left
unfolding fan worth
worth-fan lock sats n i zero = omega arith
worth-fan lock sats n i (suc left) = grind (arith, worth-fan lock sats n (i + 1) left)

-- Between one and 1000 outputs, and a total that is what they are worth, modulo 2^64.
pub record IsSized (o : Outs) : Type 0 where
  pub some_ : 1 ≤ length o.0
  pub few : length o.0 ≤ 1000
  pub total : o.1 ≡ worth o.0 % 2 ^ 64

bind-built {ℓ κ} :
    {A : Type ℓ} {B : Type κ} (m : Built A) (f : A → Built B) {b : B}
    → (m >>= f) ≡ built b
    → (a : A) × (m ≡ built a) × (f a ≡ built b)
bind-built (refused why) f h = cc
bind-built (built a) f h = (a, refl, h)

one-IsSized :
    (lock : Bytes) (sats : ℕ) (what : String) → sats < 2 ^ 64 → IsSized (one lock sats what)
unfolding one worth
one-IsSized lock sats what h = record {
  some_ = omega arith;
  few = omega arith;
  total = omega (arith, h);
}

built-IsSized : {o o' : Outs} → built o ≡ built o' → IsSized o → IsSized o'
built-IsSized {o} {o'} h s = let e : o ≡ o' = cc in rw (← e) s

module _ (sc : Scripts) (req : TxRequest) {o : Outs} (small : req.satoshis < 2 ^ 64) where
  payment-IsSized : payment sc req ≡ built o → IsSized o
  unfolding payment
  payment-IsSized h =
      let (lock, _, then1) = bind-built (lock_for sc req.to) _ h in
      elim (Bool-cases (req.satoshis == 0)) [
        | inl zero_ ↦ let stop = rw zero_ at then1 in cc stop
        | inr some_ ↦
            built-IsSized (rw some_ at then1) (one-IsSized lock req.satoshis "payment" small)
      ]

  op_return_output-IsSized : op_return_output sc req ≡ built o → IsSized o
  unfolding op_return_output
  op_return_output-IsSized h =
      let (payload, _, then1) = bind-built (data_of sc req) _ h in
      let (lock, _, then2) = bind-built (or_refuse _ (sc.op_return payload)) _ then1 in
      built-IsSized then2 (one-IsSized lock 0 "op_return data" (omega arith))

  custom-IsSized : (script : Option Bytes) → custom req.satoshis script ≡ built o → IsSized o
  unfolding custom
  custom-IsSized none h = cc
  custom-IsSized (some []) h = cc
  custom-IsSized (some (b ∷ bs)) h =
      built-IsSized h (one-IsSized (b ∷ bs) req.satoshis "custom script" small)

  fanned-IsSized : (n : ℕ) → 2 ≤ n → n ≤ 1000 → fanned sc req n ≡ built o → IsSized o
  unfolding fanned
  fanned-IsSized n low high h = elim (Bool-cases (req.satoshis == 0)) [
    | inl zero_ ↦ let stop = rw zero_ at h in cc stop
    | inr some_ ↦
        let (lock, _, then1) = bind-built (lock_for sc req.to) _ (rw some_ at h) in
        let outs : List ActionOutput = fan lock req.satoshis n 1 n in
        built-IsSized then1 (record {
          some_ = omega (arith, length-fan lock req.satoshis n 1 n);
          few = omega (arith, length-fan lock req.satoshis n 1 n);
          total = ap (λ w. w % 2 ^ 64) (sym (worth-fan lock req.satoshis n 1 n));
        })
  ]

  fanout-IsSized : (n : ℤ) → fanout sc req n ≡ built o → IsSized o
  unfolding fanout
  fanout-IsSized (negsuc n) h = cc
  fanout-IsSized (pos n) h = elim (Bool-cases (ltb n 2 || ltb 1000 n)) [
    | inl out ↦ let stop = rw out at h in cc stop
    | inr within ↦ fanned-IsSized n (ground arith) (ground arith) (rw within at h)
  ]

-- Whatever the shape: where an output's amount is below 2^64, a result has between one and 1000
-- outputs, and its total is what they are worth, modulo 2^64.
pub outputs_for-IsSized :
    (sc : Scripts) (req : TxRequest) (o : Outs)
    → req.satoshis < 2 ^ 64
    → outputs_for sc req ≡ built o
    → IsSized o
unfolding outputs_for
outputs_for-IsSized sc req o small h =
    elim (Bool-cases (str_eq req.shape "payment" || str_eq req.shape "")) [
      | inl pays ↦ payment-IsSized sc req small (rw (outputs_for, pays) at h)
      | inr more ↦ elim (Bool-cases (str_eq req.shape "opreturn")) [
        | inl data_ ↦ op_return_output-IsSized sc req small (rw (outputs_for, more, data_) at h)
        | inr more2 ↦ elim (Bool-cases (str_eq req.shape "fanout")) [
          | inl fans ↦
              fanout-IsSized sc req small req.outputs (rw (outputs_for, more, more2, fans) at h)
          | inr more3 ↦ elim (Bool-cases (str_eq req.shape "custom")) [
            | inl raw ↦
                custom-IsSized sc req small (decode_hex (trim_space req.script))
                  (rw (outputs_for, more, more2, more3, raw) at h)
            | inr other ↦ let stop = rw (outputs_for, more, more2, more3, other) at h in cc stop
          ]
        ]
      ]
    ]
