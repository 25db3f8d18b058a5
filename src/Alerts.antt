-- ===== src/Alerts.antt =====
-- bsv-regtest/alerts/wire.go: alert types and the payload of a freeze or unfreeze. A text is a list
-- of code points and a payload a list of bytes. The serialisation of one fund and the parser of a
-- message are the alert library's, and are parameters.
pub mod Hex
pub mod Funds
pub mod RoundTrip
pub mod Payloads
pub mod Log
pub mod Sync
mod Examples
use chaos_test.Common.{ℕ, Bool, List, ◌==◌, ◌||◌}

abbrev pub Bytes : Type 0
Bytes = List ℕ

abbrev pub type_freeze_utxo : ℕ
type_freeze_utxo = 2

abbrev pub type_unfreeze_utxo : ℕ
type_unfreeze_utxo = 3

-- `vout` is below 2^32 and the heights are below 2^64.
pub record Fund : Type 0 where
  pub tx_id : List ℕ
  pub vout : ℕ
  pub start : ℕ
  pub stop : ℕ
  pub expires : Bool
