-- ===== src/Wallet/Spend.antt =====
-- bsv-regtest/wallet/raw.go: `Spend`, which builds a transaction from chosen outputs. Keys, scripts and
-- the signing are the Bitcoin library's, and are parameters.
pub mod Amounts
mod Examples
use Prim.Native.String.{◌++◌ as concat}
use chaos_test.Common.{
  ℕ, zero, suc, ◌+◌, ◌-◌, ◌*◌, ◌%◌, ◌^◌, String, Bool, Option, none, some, List, [], ◌∷◌, ◌++◌, leb,
  ltb, str_eq, if◌then◌else◌, length,
}
use chaos_test.Common.Text.{itoa}
use chaos_test.Observe.Snapshot.{Reply, failed, got}

pub record TxOut : Type 0 where
  pub script : String
  pub satoshis : ℕ

-- A transaction: the outpoints that it spends, and its outputs.
pub record Tx : Type 0 where
  pub spent : List (String × ℕ)
  pub outputs : List TxOut

-- What the library does with a key of type `K`: the unlocking template's error, the locking script,
-- a script from hex, adding an input, and signing.
pub record Crypto (K : Type 0) : Type 0 where
  pub unlock : K → Option String
  pub lock : K → Reply String
  pub from_hex : String → Reply String
  pub add_input : String → ℕ → Option String
  pub sign : Tx → Option String

-- The source transaction is its id and its outputs.
pub record Input (K : Type 0) : Type 0 where
  pub source : Option (String × List TxOut)
  pub vout : ℕ
  pub key : Option K

pub record Output (K : Type 0) : Type 0 where
  pub key : Option K
  pub script : String
  pub satoshis : ℕ

-- `tx.Outputs[vout]`
unfoldable pub nth : List TxOut → ℕ → Option TxOut
nth [] i = none
nth (o ∷ os) zero = some o
nth (o ∷ os) (suc i) = nth os i

infixl 5 ◌>>=◌
abbrev pub ◌>>=◌ {ℓ κ} : {A : Type ℓ} {B : Type κ} → Reply A → (A → Reply B) → Reply B
failed err >>= f = failed err
got a >>= f = f a

-- An error of the library, with the prefix that the code gives it.
abbrev pub unless : Option String → String → Reply (Unit {0})
unless none prefix = got tt
unless (some err) prefix = failed (concat prefix err)

abbrev pub prefixed {ℓ} : {A : Type ℓ} → String → Reply A → Reply A
prefixed prefix (failed err) = failed (concat prefix err)
prefixed prefix (got a) = got a

-- `in - out - fee` of unsigned integers.
abbrev pub rest_of : ℕ → ℕ → ℕ → ℕ
rest_of total out fee = (total + 2 * 2 ^ 64 - out - fee) % 2 ^ 64

module _ {K : Type 0} (crypto : Crypto K) where
  -- What is there of an input: its transaction's id, its output and its key.
  input_parts : ℕ → Input K → Reply (String × TxOut × K)
  input_parts i inp = elim inp.source [
    | none ↦ failed (concat "input " (concat (itoa i) ": source tx and key required"))
    | some (txid, outs) ↦ elim inp.key [
      | none ↦ failed (concat "input " (concat (itoa i) ": source tx and key required"))
      | some k ↦ elim (nth outs inp.vout) [
        | none ↦ failed (
            concat "input "
              (concat (itoa i) (concat ": vout " (concat (itoa inp.vout) " out of range"))))
        | some o ↦ got (txid, o, k)
      ]
    ]
  ]

  unfoldable pub add_inputs :
      ℕ → List (Input K) → List (String × ℕ) → ℕ → Reply (List (String × ℕ) × ℕ)
  unfolding input_parts
  add_inputs i [] spent total = got (spent, total)
  add_inputs i (inp ∷ rest) spent total = do
    (txid, o, k) ← input_parts i inp
    _ ← unless (crypto.unlock k) (concat "input " (concat (itoa i) ": unlocker: "))
    _ ← unless (crypto.add_input txid inp.vout) (concat "input " (concat (itoa i) ": "))
    add_inputs (i + 1) rest (spent ++ (txid, inp.vout) ∷ []) ((total + o.satoshis) % 2 ^ 64)

  script_of : Output K → Reply String
  script_of o = elim o.key [
    | some k ↦ crypto.lock k
    | none ↦
        if str_eq o.script ""
        then failed "output needs a key or a script"
        else crypto.from_hex o.script
  ]

  unfoldable pub add_outputs : ℕ → List (Output K) → List TxOut → ℕ → Reply (List TxOut × ℕ)
  unfolding script_of
  add_outputs i [] outs total = got (outs, total)
  add_outputs i (o ∷ rest) outs total = do
    ls ← prefixed (concat "output " (concat (itoa i) ": ")) (script_of o)
    add_outputs (i + 1) rest (outs ++ record { script = ls; satoshis = o.satoshis } ∷ [])
        ((total + o.satoshis) % 2 ^ 64)

  -- The change, to the first input's key where it is above dust.
  unfoldable pub with_change : Option K → ℕ → List TxOut → Reply (List TxOut)
  with_change first change outs =
      if ltb 546 change
      then elim first [
        | none ↦ got outs
        | some k ↦ do
          ls ← crypto.lock k
          got (outs ++ record { script = ls; satoshis = change } ∷ [])
      ]
      else got outs

  signed : Tx → Reply Tx
  signed tx = elim (crypto.sign tx) [ none ↦ got tx | some err ↦ failed (concat "sign: " err) ]

  -- The last part, for the sums of the inputs and of the outputs.
  unfoldable pub balance : Option K → List (String × ℕ) → ℕ → List TxOut → ℕ → ℕ → Reply Tx
  unfolding signed
  balance first spent total outs out fee =
      if ltb total ((out + fee) % 2 ^ 64)
      then failed (
          concat "outputs (" (
            concat (itoa out) (
              concat ") + fee ("
                (concat (itoa fee) (concat ") exceed inputs (" (concat (itoa total) ")"))))))
      else (with_change first (rest_of total out fee) outs >>= λ all.
          signed (record { spent = spent; outputs = all }))

  unfoldable pub spend : List (Input K) → List (Output K) → ℕ → Reply Tx
  spend [] outputs fee = failed "spend needs at least one input"
  spend (inp ∷ rest) outputs fee = do
    (spent, total) ← add_inputs 0 (inp ∷ rest) [] 0
    (outs, out) ← add_outputs 0 outputs [] 0
    balance inp.key spent total outs out fee
