-- ===== src/Wallet/Shapes.antt =====
-- bsv-regtest/walletd/tx.go: the outputs of a transaction by its shape.
-- Texts are lists of code points, scripts lists of bytes; hex of a text that is
-- no hex is `none`. Addresses and OP_RETURN scripts are the Bitcoin library's.
pub mod Sized
mod Examples
use Prim.Native.String.{◌++◌ as concat}
use chaos_test.Common.{
  ℕ, zero, suc, ◌+◌, ◌*◌, ◌%◌, ◌^◌, ◌≤◌, ◌<◌, ◌≡◌, refl, sym, ap, ◌∙◌, inl, inr, ℤ, pos, negsuc,
  String, Bool, true, false, not, ◌||◌, ◌&&◌, Option, none, some, List, [], ◌∷◌, ◌++◌, arith, ltb,
  leb, ◌==◌, str_eq, if◌then◌else◌, length, Bool-cases,
}
use chaos_test.Common.Text.{itoa}
use chaos_test.Logs.Text.{Text, trim_space, codes, text_eq}
use chaos_test.Alerts.{Bytes}
use chaos_test.Alerts.Hex.{decode_hex}

-- `satoshis` is below 2^64.
pub record TxRequest : Type 0 where
  pub shape : String
  pub satoshis : ℕ
  pub to : Text
  pub outputs : ℤ
  pub op_data : Text
  pub data_hex : Text
  pub script : Text

pub record ActionOutput : Type 0 where
  pub locking_script : Bytes
  pub satoshis : ℕ
  pub output_description : String

pub data Refusal : Type 0 where
  own_deposit bad_destination no_satoshis bad_data no_data bad_op_return bad_count bad_script
        no_script unknown_shape :
      Refusal

pub data Built {ℓ} (A : Type ℓ) : Type ℓ where
  refused : Refusal → Built A
  built : A → Built A

-- The wallet's own deposit script, a script that pays an address, the bytes of a text, and the script
-- of a data output.
pub record Scripts : Type 0 where
  pub deposit_hex : Text
  pub pay_to : Text → Option Bytes
  pub utf8 : Text → Bytes
  pub op_return : Bytes → Option Bytes

or_refuse {ℓ} : {A : Type ℓ} → Refusal → Option A → Built A
or_refuse why none = refused why
or_refuse why (some a) = built a

infixl 5 ◌>>=◌
abbrev pub ◌>>=◌ {ℓ κ} : {A : Type ℓ} {B : Type κ} → Built A → (A → Built B) → Built B
refused why >>= f = refused why
built a >>= f = f a

-- A long text of hex is a script.
given_script : Text → Option Bytes
given_script to = elim (decode_hex to) [
  | none ↦ none
  | some b ↦ if leb 20 (length b) then some b else none
]

unfoldable pub lock_for : Scripts → Text → Built Bytes
unfolding or_refuse given_script
lock_for sc to = elim (trim_space to) [
  | [] ↦ or_refuse own_deposit (decode_hex sc.deposit_hex)
  | c ∷ s ↦ elim (given_script (c ∷ s)) [
    | some b ↦ built b
    | none ↦ or_refuse bad_destination (sc.pay_to (c ∷ s))
  ]
]

-- `left` more outputs of a fanout of n, from number i on.
unfoldable pub fan : Bytes → ℕ → ℕ → ℕ → ℕ → List ActionOutput
fan lock sats n i zero = []
fan lock sats n i (suc left) =
    record {
      locking_script = lock;
      satoshis = sats;
      output_description = concat "fanout " (concat (itoa i) (concat "/" (itoa n)));
    }
    ∷ fan lock sats n (i + 1) left

abbrev pub Outs : Type 0
Outs = List ActionOutput × ℕ

unfoldable pub one : Bytes → ℕ → String → Outs
one lock sats what =
    (record { locking_script = lock; satoshis = sats; output_description = what } ∷ [], sats)

payment : Scripts → TxRequest → Built Outs
payment sc req = do
  lock ← lock_for sc req.to
  if req.satoshis == 0 then refused no_satoshis else built (one lock req.satoshis "payment")

data_of : Scripts → TxRequest → Built Bytes
data_of sc req =
    if not (text_eq req.data_hex [])
    then or_refuse bad_data (decode_hex (trim_space req.data_hex))
    else if not (text_eq req.op_data [])
    then built (sc.utf8 req.op_data)
    else refused no_data

op_return_output : Scripts → TxRequest → Built Outs
op_return_output sc req = do
  payload ← data_of sc req
  lock ← or_refuse bad_op_return (sc.op_return payload)
  built (one lock 0 "op_return data")

fanned : Scripts → TxRequest → ℕ → Built Outs
fanned sc req n =
    if req.satoshis == 0
    then refused no_satoshis
    else (lock_for sc req.to >>= λ lock.
        built (fan lock req.satoshis n 1 n, (req.satoshis * n) % 2 ^ 64))

fanout : Scripts → TxRequest → ℤ → Built Outs
fanout sc req (pos n) = if ltb n 2 || ltb 1000 n then refused bad_count else fanned sc req n
fanout sc req (negsuc n) = refused bad_count

custom : ℕ → Option Bytes → Built Outs
custom sats none = refused bad_script
custom sats (some []) = refused no_script
custom sats (some (b ∷ bs)) = built (one (b ∷ bs) sats "custom script")

unfoldable pub outputs_for : Scripts → TxRequest → Built Outs
unfolding payment op_return_output fanout custom fanned data_of or_refuse
outputs_for sc req =
    if str_eq req.shape "payment" || str_eq req.shape ""
    then payment sc req
    else if str_eq req.shape "opreturn"
    then op_return_output sc req
    else if str_eq req.shape "fanout"
    then fanout sc req req.outputs
    else if str_eq req.shape "custom"
    then custom req.satoshis (decode_hex (trim_space req.script))
    else refused unknown_shape
