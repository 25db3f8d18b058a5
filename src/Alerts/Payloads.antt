-- ===== src/Alerts/Payloads.antt =====
-- bsv-regtest/alerts/wire.go: the types of an alert, the payloads of those that neither freeze nor
-- unfreeze, and `Build`. `write_int_bytes` is the library's writer of a length with its bytes, and
-- `sign` its message: the wire bytes and the hash of a sequence, a type, a time and a payload, signed
-- with the keys.
use mathlib.Core.List.{reverse}
use chaos_test.Common.{
  ℕ, String, not, ◌||◌, Option, none, some, List, [], ◌∷◌, ◌++◌, ◌==◌, if◌then◌else◌, length,
}
use chaos_test.Common.Text.{itoa}
use chaos_test.Logs.Text.{Text, codes, text_eq, bytes}
use chaos_test.Alerts.{Bytes, type_freeze_utxo, type_unfreeze_utxo}
use chaos_test.Alerts.Hex.{decode_hex, put_le}
use chaos_test.Alerts.Log.{Alert}

abbrev pub type_informational : ℕ
type_informational = 1

abbrev pub type_confiscate_utxo : ℕ
type_confiscate_utxo = 4

abbrev pub type_ban_peer : ℕ
type_ban_peer = 5

abbrev pub type_unban_peer : ℕ
type_unban_peer = 6

abbrev pub type_invalidate_block : ℕ
type_invalidate_block = 7

abbrev pub type_set_keys : ℕ
type_set_keys = 8

-- `Type.String`
unfoldable pub type_name : ℕ → Text
type_name t =
    if t == type_informational
    then codes "informational"
    else if t == type_freeze_utxo
    then codes "freeze"
    else if t == type_unfreeze_utxo
    then codes "unfreeze"
    else if t == type_confiscate_utxo
    then codes "confiscate"
    else if t == type_ban_peer
    then codes "ban"
    else if t == type_unban_peer
    then codes "unban"
    else if t == type_invalidate_block
    then codes "invalidateblock"
    else if t == type_set_keys
    then codes "setkeys"
    else codes "type-" ++ codes (itoa t)

abbrev known_types : List ℕ
known_types =
    type_informational ∷ type_freeze_utxo ∷ type_unfreeze_utxo ∷ type_confiscate_utxo
    ∷ type_ban_peer ∷ type_unban_peer ∷ type_invalidate_block ∷ type_set_keys ∷ []

find_type : Text → List ℕ → Option ℕ
find_type s [] = none
find_type s (t ∷ ts) = let rest = find_type s ts in if text_eq (type_name t) s then some t else rest

unfoldable pub parse_type : Text → Option ℕ
unfolding find_type
parse_type s = find_type s known_types

module _ (write_int_bytes : Bytes → Bytes) where
  unfoldable pub informational_payload : Text → Bytes
  informational_payload message = write_int_bytes (bytes message)

  unfoldable pub invalidate_block_payload : (hash reason : Text) → Option Bytes
  invalidate_block_payload hash [] = none
  invalidate_block_payload hash (c ∷ reason) = elim (decode_hex hash) [
    | some raw ↦
        if length raw == 32
        then some (reverse raw ++ write_int_bytes (bytes (c ∷ reason)))
        else none
    | none ↦ none
  ]

  unfoldable pub confiscate_payload : ℕ → Bytes → Option Bytes
  confiscate_payload enforce_at [] = none
  confiscate_payload enforce_at (b ∷ raw) = some (put_le 8 enforce_at ++ write_int_bytes (b ∷ raw))

  unfoldable pub peer_payload : (peer reason : Text) → Option Bytes
  peer_payload [] reason = none
  peer_payload (c ∷ peer) [] = none
  peer_payload (c ∷ peer) (d ∷ reason) =
      some (write_int_bytes (bytes (c ∷ peer)) ++ write_int_bytes (bytes (d ∷ reason)))

join_key : Option Bytes → Option Bytes → Option Bytes
join_key (some raw) (some rest) = if length raw == 33 then some (raw ++ rest) else none
join_key _ _ = none

join_keys : List Text → Option Bytes
unfolding join_key
join_keys [] = some []
join_keys (k ∷ ks) = join_key (decode_hex k) (join_keys ks)

unfoldable pub set_keys_payload : List Text → Option Bytes
unfolding join_keys
set_keys_payload ks = let out = join_keys ks in if length ks == 5 then out else none

pub record Signed : Type 0 where
  pub wire : Bytes
  pub hash : String

-- `Build`; none for an error.
unfoldable pub build :
    (sign : ℕ → ℕ → ℕ → Bytes → List Text → Option Signed)
    → (seq typ : ℕ) → Bytes
    → (now : ℕ) → List Text
    → Option Alert
build sign seq typ payload now keys = elim (sign seq typ now payload keys) [
  | some m ↦
      if not (length keys == 3) || length payload == 0
      then none
      else some record { sequence = seq; kind = typ; timestamp = now; wire = m.wire; hash = m.hash }
  | none ↦ none
]
