-- ===== src/Arcade.antt =====
-- internal/arcade/tx.go: arcade's transaction lifecycle. The enum is open, so a status is a text.
use chaos_test.Common.{ℕ, String, List, Bool, ◌||◌, str_eq}

abbrev pub status_unknown : String
status_unknown = "UNKNOWN"

abbrev pub status_double_spend_attempted : String
status_double_spend_attempted = "DOUBLE_SPEND_ATTEMPTED"

abbrev pub status_rejected : String
status_rejected = "REJECTED"

abbrev pub status_mined : String
status_mined = "MINED"

abbrev pub status_immutable : String
status_immutable = "IMMUTABLE"

-- Synthetic: arcade answered 404.
abbrev pub status_not_found : String
status_not_found = "NOT_FOUND"

unfoldable pub is_settled : String → Bool
is_settled status =
    str_eq status status_mined
    || (str_eq status status_immutable || str_eq status status_double_spend_attempted)

unfoldable pub is_good : String → Bool
is_good status = str_eq status status_mined || str_eq status status_immutable

-- GET /tx/{txid}
pub record TxRecord : Type 0 where
  pub tx_id : String
  pub status : String
  pub status_code : ℕ
  pub block_hash : String
  pub block_height : ℕ
  pub merkle_path : String
  pub extra_info : String
  pub competing_txs : List String
  pub timestamp : String
