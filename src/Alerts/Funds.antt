-- ===== src/Alerts/Funds.antt =====
-- `FundsPayload` and `Funds` of bsv-regtest/alerts/wire.go.
use chaos_test.Common.{
  ℕ, zero, suc, ◌/◌, ◌%◌, ◌^◌, Bool, false, not, ◌&&◌, ◌||◌, Option, none, some, List, [], ◌∷◌,
  ◌++◌, ◌==◌, if◌then◌else◌, length, take, drop,
}
use chaos_test.Alerts.{Bytes, Fund, type_freeze_utxo, type_unfreeze_utxo}
use chaos_test.Alerts.Hex.{decode_hex, encode_hex, read_le}

-- `models.Fund` of the alert library.
pub record ModelFund : Type 0 where
  pub transaction_out_id : Bytes
  pub model_vout : ℕ
  pub height_start : ℕ
  pub height_end : ℕ
  pub policy_expires : Bool

pub data Payload : Type 0 where
  ok : Bytes → Payload
  no_funds bad_txid : Payload

unfoldable pub model_of : Fund → Bytes → ModelFund
model_of f raw = record {
  transaction_out_id = raw;
  model_vout = f.vout;
  height_start = f.start;
  height_end = f.stop;
  policy_expires = f.expires;
}

prepend : Bytes → Payload → Payload
prepend bs (ok rest) = ok (bs ++ rest)
prepend bs no_funds = no_funds
prepend bs bad_txid = bad_txid

-- The loop, for `mf.Serialize()`.
unfoldable pub serialize_all : (ModelFund → Bytes) → List Fund → Payload
unfolding prepend
serialize_all serialize [] = ok []
serialize_all serialize (f ∷ fs) = elim (decode_hex f.tx_id) [
  | none ↦ bad_txid
  | some raw ↦
      let rest = serialize_all serialize fs in
      if length raw == 32 then prepend (serialize (model_of f raw)) rest else bad_txid
]

unfoldable pub funds_payload : (ModelFund → Bytes) → List Fund → Payload
funds_payload serialize [] = no_funds
funds_payload serialize (f ∷ fs) = serialize_all serialize (f ∷ fs)

-- `r[a:b]`
abbrev pub slice : ℕ → ℕ → Bytes → Bytes
slice a n bs = take n (drop a bs)

unfoldable pub is_set : Bytes → Bool
is_set [] = false
is_set (b ∷ bs) = not (b == 0)

unfoldable pub read_fund : Bytes → Fund
read_fund r = record {
  tx_id = encode_hex (slice 0 32 r);
  vout = read_le (slice 32 8 r) % 2 ^ 32;
  start = read_le (slice 40 8 r);
  stop = read_le (slice 48 8 r);
  expires = is_set (drop 56 r);
}

-- The loop over the records; there are `len(raw) / 57` of them.
unfoldable pub read_funds : ℕ → Bytes → List Fund
read_funds zero raw = []
read_funds (suc n) raw = read_fund (take 57 raw) ∷ read_funds n (drop 57 raw)

pub data Decoded : Type 0 where
  funds : List Fund → Decoded
  other_type bad_length unparsed : Decoded

unfoldable pub funds_of : ℕ × Bytes → Decoded
funds_of (typ, raw) =
    if not (typ == type_freeze_utxo) && not (typ == type_unfreeze_utxo)
    then other_type
    else if length raw == 0 || not (length raw % 57 == 0)
    then bad_length
    else funds (read_funds (length raw / 57) raw)

-- `Funds`; `parse` is the library's parser, the type and the payload of a message.
unfoldable pub decode_funds : (Bytes → Option (ℕ × Bytes)) → Bytes → Decoded
decode_funds parse wire = elim (parse wire) [ none ↦ unparsed | some m ↦ funds_of m ]
