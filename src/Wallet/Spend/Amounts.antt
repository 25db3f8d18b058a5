-- ===== src/Wallet/Spend/Amounts.antt =====
-- What `Spend` of bsv-regtest/wallet/raw.go keeps of the amounts.
use mathlib.Core.List.{append_assoc, append-nil}
use chaos_test.Common.{
  ℕ, ◌+◌, ◌-◌, ◌%◌, ◌^◌, ◌≤◌, ◌<◌, ◌≡◌, refl, ap, ◌∙◌, inl, inr, String, none, some, List, [], ◌∷◌,
  ◌++◌, map, arith, ltb, Bool-cases,
}
use chaos_test.Observe.Snapshot.{Reply, failed, got}
use chaos_test.Wallet.Spend.{
  TxOut, Tx, Crypto, Input, Output, nth, ◌>>=◌, unless, prefixed, input_parts, add_inputs,
  script_of, add_outputs, rest_of, with_change, signed, balance, spend,
}

bind-got {ℓ κ} :
    {A : Type ℓ} {B : Type κ} (m : Reply A) (f : A → Reply B) {b : B}
    → (m >>= f) ≡ got b
    → (a : A) × (m ≡ got a) × (f a ≡ got b)
bind-got (failed err) f h = cc
bind-got (got a) f h = (a, refl, h)

-- The amounts that a list of outputs comes to.
unfoldable pub total_of : List TxOut → ℕ
total_of [] = 0
total_of (o ∷ os) = o.satoshis + total_of os

total_of-append : (xs ys : List TxOut) → total_of (xs ++ ys) ≡ total_of xs + total_of ys
unfolding total_of
total_of-append [] ys = omega arith
total_of-append (x ∷ xs) ys = omega (arith, total_of-append xs ys)

total_of_one : (o : TxOut) → total_of (o ∷ []) ≡ o.satoshis
unfolding total_of
total_of_one o = omega arith

total_of_none : total_of [] ≡ 0
unfolding total_of
total_of_none = refl

mod_small : (n : ℕ) → n < 2 ^ 64 → n % 2 ^ 64 ≡ n
mod_small n h = omega arith

module _ {K : Type 0} where
  -- The coin that an input names: its outpoint and its amount.
  unfoldable pub coin : Input K → (String × ℕ) × ℕ
  coin inp = elim inp.source [
    | none ↦ (("", inp.vout), 0)
    | some (txid, outs) ↦
        ((txid, inp.vout), elim (nth outs inp.vout) [ none ↦ 0 | some o ↦ o.satoshis ])
  ]

  unfoldable pub coins : List (Input K) → ℕ
  coins [] = 0
  coins (inp ∷ rest) = (coin inp).1 + coins rest

  unfoldable pub wanted : List (Output K) → ℕ
  wanted [] = 0
  wanted (o ∷ os) = o.satoshis + wanted os

module _ {K : Type 0} (crypto : Crypto K) where
  parts-coin :
      (i : ℕ) (inp : Input K) {txid : String} {o : TxOut} {k : K}
      → input_parts crypto i inp ≡ got (txid, o, k)
      → coin inp ≡ ((txid, inp.vout), o.satoshis)
  unfolding input_parts coin
  parts-coin i inp h = ground arith

  add_inputs-coins :
      (i : ℕ) (inps : List (Input K)) (spent : List (String × ℕ)) (total : ℕ)
      {s : List (String × ℕ)} {t : ℕ}
      → add_inputs crypto i inps spent total ≡ got (s, t)
      → total + coins inps < 2 ^ 64
      → (t ≡ total + coins inps) × (s ≡ spent ++ map (λ (inp : Input K). (coin inp).0) inps)
  unfolding add_inputs coins
  add_inputs-coins i [] spent total h small =
      (ground (arith, h), ground (arith, h, append-nil spent))
  add_inputs-coins i (inp ∷ rest) spent total h small =
      let (parts, known, then1) = bind-got (input_parts crypto i inp) _ h in
      let (_, _, then2) = bind-got (unless (crypto.unlock parts.2) _) _ then1 in
      let (_, _, then3) = bind-got (unless (crypto.add_input parts.0 inp.vout) _) _ then2 in
      let is : coin inp ≡ ((parts.0, inp.vout), parts.1.satoshis) =
        parts-coin i inp {txid = parts.0} {o = parts.1} {k = parts.2} known in
      let worth : (coin inp).1 ≡ parts.1.satoshis = ap (λ (c : (String × ℕ) × ℕ). c.1) is in
      let point : (coin inp).0 ≡ (parts.0, inp.vout) = ap (λ (c : (String × ℕ) × ℕ). c.0) is in
      let sum : total + (parts.1.satoshis + coins rest) < 2 ^ 64 = rw (← worth) small in
      let fits : (total + parts.1.satoshis) % 2 ^ 64 ≡ total + parts.1.satoshis =
        mod_small (total + parts.1.satoshis) (omega (arith, sum)) in
      let more =
        add_inputs-coins (i + 1) rest (spent ++ (parts.0, inp.vout) ∷ [])
          ((total + parts.1.satoshis) % 2 ^ 64) then3 (rw fits (omega (arith, sum))) in
      (
        more.0 ∙ omega (arith, fits, worth),
        more.1
            ∙ append_assoc spent ((parts.0, inp.vout) ∷ [])
                (map (λ (inp : Input K). (coin inp).0) rest)
            ∙ rw point,
      )

  add_outputs-wanted :
      (i : ℕ) (os : List (Output K)) (outs : List TxOut) (total : ℕ) {all : List TxOut} {t : ℕ}
      → add_outputs crypto i os outs total ≡ got (all, t)
      → total + wanted os < 2 ^ 64
      → (t ≡ total + wanted os) × (total_of all ≡ total_of outs + wanted os)
  unfolding add_outputs wanted
  add_outputs-wanted i [] outs total h small = ground (arith, h)
  add_outputs-wanted i (o ∷ os) outs total h small =
      let (ls, _, then1) = bind-got (prefixed _ (script_of crypto o)) _ h in
      let fits : (total + o.satoshis) % 2 ^ 64 ≡ total + o.satoshis =
        mod_small (total + o.satoshis) (omega (arith, small)) in
      let out : TxOut = record { script = ls; satoshis = o.satoshis } in
      let more =
        add_outputs-wanted (i + 1) os (outs ++ out ∷ []) ((total + o.satoshis) % 2 ^ 64) then1
          (rw fits (omega (arith, small))) in
      let one : total_of (out ∷ []) ≡ o.satoshis = total_of_one out in
      (more.0 ∙ omega (arith, fits), more.1 ∙ omega (arith, total_of-append outs (out ∷ []), one))

  parts-key :
      (i : ℕ) (inp : Input K) {p : String × TxOut × K}
      → input_parts crypto i inp ≡ got p
      → inp.key ≡ some p.2
  unfolding input_parts
  parts-key i inp h = ground arith

  first-key :
      (inp : Input K) (rest : List (Input K)) {r : List (String × ℕ) × ℕ}
      → add_inputs crypto 0 (inp ∷ rest) [] 0 ≡ got r
      → (k : K) × (inp.key ≡ some k)
  unfolding add_inputs
  first-key inp rest h =
      let (parts, known, _) = bind-got (input_parts crypto 0 inp) _ h in
      (parts.2, parts-key 0 inp known)

  with_change-total :
      (k : K) (change : ℕ) (outs : List TxOut) {all : List TxOut}
      → with_change crypto (some k) change outs ≡ got all
      → (lost : ℕ) × (lost ≤ 546) × (total_of all + lost ≡ total_of outs + change)
  unfolding with_change
  with_change-total k change outs {all} e = elim (Bool-cases (ltb 546 change)) [
    | inl big ↦
        let (ls, _, made) = bind-got (crypto.lock k) _ (rw (with_change, big) at e) in
        let out : TxOut = record { script = ls; satoshis = change } in
        let is : outs ++ out ∷ [] ≡ all = cc made in
        (
          0,
          omega arith,
          rw (← is) (omega (arith, total_of-append outs (out ∷ []), total_of_one out)),
        )
    | inr small ↦
        let is : outs ≡ all = cc (rw (with_change, small) at e) in
        (change, ground (arith, small), rw (← is) refl)
  ]

  signed-is : (tx : Tx) {tx' : Tx} → signed crypto tx ≡ got tx' → tx' ≡ tx
  unfolding signed
  signed-is tx h = ground arith

  balance-total :
      (k : K) (spent : List (String × ℕ)) (total : ℕ) (outs : List TxOut) (out fee : ℕ) {tx : Tx}
      → total < 2 ^ 64
      → out + fee < 2 ^ 64
      → balance crypto (some k) spent total outs out fee ≡ got tx
      → (tx.spent ≡ spent)
        × ((lost : ℕ) × (lost ≤ 546)
            × (total_of tx.outputs + lost + out + fee ≡ total_of outs + total))
  unfolding balance
  balance-total k spent total outs out fee {tx} bound fits h =
      elim (Bool-cases (ltb total ((out + fee) % 2 ^ 64))) [
        | inl over ↦ let stop = rw (balance, over) at h in cc stop
        | inr enough ↦
            let (all, changed, last) =
              bind-got (with_change crypto (some k) (rest_of total out fee) outs) _
                (rw (balance, enough) at h) in
            let same = signed-is (record { spent = spent; outputs = all }) last in
            let (lost, few, sum) = with_change-total k (rest_of total out fee) outs changed in
            let covered : out + fee ≤ total = ground (arith, enough, mod_small (out + fee) fits) in
            let rest : rest_of total out fee ≡ total - out - fee = omega (arith, covered) in
            (
              ap (λ (t : Tx). t.spent) same,
              (lost, few, rw (ap (λ (t : Tx). t.outputs) same) (omega (arith, sum, rest, covered))),
            )
      ]

-- Where the amounts that come in, and those that go out with the fee, are below 2^64: the
-- transaction that `Spend` returns spends the outpoints that its inputs name, in their order, and
-- what these hold is what its outputs hold, with the fee and at most 546 satoshis that are lost.
pub spend-conserves :
    {K : Type 0} (crypto : Crypto K) (inputs : List (Input K)) (outputs : List (Output K)) (fee : ℕ)
    (tx : Tx)
    → coins inputs < 2 ^ 64
    → wanted outputs + fee < 2 ^ 64
    → spend crypto inputs outputs fee ≡ got tx
    → (tx.spent ≡ map (λ (inp : Input K). (coin inp).0) inputs)
      × ((lost : ℕ) × (lost ≤ 546) × (coins inputs ≡ total_of tx.outputs + fee + lost))
unfolding spend
spend-conserves crypto [] outputs fee tx bound fits h = cc
spend-conserves {K} crypto (inp ∷ rest) outputs fee tx bound fits h =
    let (ins, read, then1) = bind-got (add_inputs crypto 0 (inp ∷ rest) [] 0) _ h in
    let (outs, written, then2) = bind-got (add_outputs crypto 0 outputs [] 0) _ then1 in
    let taken = add_inputs-coins crypto 0 (inp ∷ rest) [] 0 read (omega (arith, bound)) in
    let given = add_outputs-wanted crypto 0 outputs [] 0 written (omega (arith, fits)) in
    let (k, keyed) = first-key crypto inp rest read in
    let end =
      balance-total crypto k ins.0 ins.1 outs.0 outs.1 fee (omega (arith, taken.0, bound))
        (omega (arith, given.0, fits)) (rw keyed at then2) in
    let nothing : total_of [] ≡ 0 = total_of_none in
    (
      end.0 ∙ taken.1,
      (end.1.0, end.1.1, omega (arith, end.1.2, taken.0, given.0, given.1, nothing)),
    )
