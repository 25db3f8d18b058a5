-- ===== src/Wallet/Tracker.antt =====
-- internal/walletsvc/tracker.go, with the row type of types.go. An instant is a number of
-- nanoseconds since Go's zero time, so that 0 is the zero time; `now` is an argument of each call.

pub mod Poll
pub mod Invariant
pub mod Size
pub mod Terminal
pub mod Divergence
pub mod Due
mod Examples
use mathlib.Core.List.{reverse}
use mathlib.Core.Option
use chaos_test.Common.{
  ℕ, zero, suc, ◌+◌, ◌-◌, ◌*◌, ◌^◌, String, ℤ, pos, negsuc, Bool, true, false, not, ◌&&◌, ◌||◌,
  Option, none, some, List, [], ◌∷◌, ◌++◌, ltb, leb, ◌==◌, str_eq, if◌then◌else◌, length,
}
use chaos_test.Common.Dict.{Dict, lookup, insert, delete}
use chaos_test.Observe.Bus.{Attrs, Value, text, num, texts}
use chaos_test.Arcade.{
  TxRecord, is_settled, is_good, status_unknown, status_rejected, status_not_found,
  status_double_spend_attempted,
}

abbrev pub second : ℕ
second = 1_000_000_000

abbrev pub rejected_grace : ℕ
rejected_grace = 120 * second

abbrev pub not_found_grace : ℕ
not_found_grace = 600 * second

-- A field that holds "" or a formatted instant.
pub data Stamp : Type 0 where
  blank : Stamp
  rfc3339 : ℕ → Stamp

pub record TxRow : Type 0 where
  pub tx_id : String
  pub shape : String
  pub target : String
  pub satoshis : ℤ
  pub wallet_status : String
  pub arcade_status : String
  pub block_height : ℕ
  pub extra_info : String
  pub competing_txs : List String
  pub diverged : Bool
  pub terminal : Bool
  pub created_at : Stamp
  pub checked_at : Stamp

pub record Tracked : Type 0 where
  pub row : TxRow
  pub created : ℕ
  pub last_polled : ℕ
  pub rejected_at : ℕ

pub record Tracker : Type 0 where
  pub rows : Dict Tracked
  pub order : List String
  pub max : ℕ
  pub has_bus : Bool

-- What is handed to `Publish` of the bus.
pub record Notice : Type 0 where
  pub kind : String
  pub node : String
  pub message : String
  pub attrs : Attrs

pub new_tracker : Bool → ℤ → Tracker
new_tracker has_bus max = record {
  rows = [];
  order = [];
  max = elim max [ pos n ↦ if n == 0 then 2000 else n | negsuc n ↦ 2000 ];
  has_bus = has_bus;
}

-- `int64(sats)` of a uint64.
unfoldable pub to_int64 : ℕ → ℤ
to_int64 n = if ltb n (2 ^ 63) then pos n else negsuc (2 ^ 64 - n - 1)

abbrev pub empty_row : String → TxRow
empty_row txid = record {
  tx_id = txid;
  shape = "";
  target = "";
  satoshis = pos 0;
  wallet_status = "";
  arcade_status = "";
  block_height = 0;
  extra_info = "";
  competing_txs = [];
  diverged = false;
  terminal = false;
  created_at = blank;
  checked_at = blank;
}

abbrev pub fresh : TxRow → ℕ → Tracked
fresh row now = record {
  row = record row { created_at = rfc3339 now };
  created = now;
  last_polled = 0;
  rejected_at = 0;
}

-- `for len(t.order) > t.max { delete(t.rows, t.order[0]); t.order = t.order[1:] }`
unfoldable pub evict : ℕ → Dict Tracked → List String → Dict Tracked × List String
evict max rows [] = (rows, [])
evict max rows (oldest ∷ order) =
    let rest = evict max (delete oldest rows) order in
    if ltb max (length (oldest ∷ order)) then rest else (rows, oldest ∷ order)

note_new : String → String → String → ℕ → String → ℕ → Tracker → Tracker
unfolding to_int64
note_new txid shape target sats wallet_status now t =
    let row : TxRow = record (empty_row txid) {
      shape = shape;
      target = target;
      satoshis = to_int64 sats;
      wallet_status = wallet_status;
    } in
    let (rows, order) = evict t.max (insert txid (fresh row now) t.rows) (t.order ++ txid ∷ []) in
    record t { rows = rows; order = order }

note_known : String → String → Tracked → Tracker → Tracker
note_known txid wallet_status e t = if str_eq wallet_status "" then t else record t {
  rows = insert txid (record e { row = record e.row { wallet_status = wallet_status } }) t.rows;
}

unfoldable pub note : String → String → String → ℕ → String → ℕ → Tracker → Tracker
unfolding note_new note_known
note txid shape target sats wallet_status now t =
    if str_eq txid "" then t else elim (lookup txid t.rows) [
      | some e ↦ note_known txid wallet_status e t
      | none ↦ note_new txid shape target sats wallet_status now t
    ]

-- `now.Sub(t) > d`
abbrev pub older : ℕ → ℕ → ℕ → Bool
older now t d = ltb d (now - t)

-- Whether the two sources contradict each other, and how.
unfoldable pub divergence : TxRow → ℕ → ℕ → Option String
divergence r rejected_at now =
    if str_eq r.arcade_status status_double_spend_attempted
    then some "arcade saw a conflicting spend of the same input"
    else if str_eq r.arcade_status status_rejected
        && (not (rejected_at == 0)
            && (older now rejected_at rejected_grace
                && (str_eq r.wallet_status "completed" || str_eq r.wallet_status "unproven")))
    then some "the wallet counts it as accepted but the network rejected it"
    else if str_eq r.wallet_status "failed" && is_good r.arcade_status
    then some "the wallet gave up on a transaction the network mined"
    else none

abbrev pub is_some : Option String → Bool
is_some none = false
is_some (some why) = true

-- A row with the wallet's status, marked if that alone makes the sources disagree.
unfoldable pub with_wallet_status : String → ℕ → Tracked → Tracked
with_wallet_status status now e =
    let row : TxRow = record e.row { wallet_status = status } in
    if is_some (divergence row e.rejected_at now)
    then record e { row = record row { diverged = true } }
    else record e { row = row }

unfoldable pub set_wallet_status : String → String → ℕ → Tracker → Tracker
set_wallet_status txid status now t =
    if str_eq txid "" || str_eq status "" then t else elim (lookup txid t.rows) [
      | some e ↦ record t { rows = insert txid (with_wallet_status status now e) t.rows }
      | none ↦ record t {
        rows = insert txid (with_wallet_status status now (fresh (empty_row txid) now)) t.rows;
        order = t.order ++ txid ∷ [];
      }
    ]

collect : ℕ → Dict Tracked → List String → List TxRow
collect zero rows ids = []
collect (suc n) rows [] = []
collect (suc n) rows (id ∷ ids) = elim (lookup id rows) [
  | some e ↦ e.row ∷ collect n rows ids
  | none ↦ collect (suc n) rows ids
]

-- The newest `n` rows, newest first; all of them for a count that is out of range.
unfoldable pub rows_newest : ℤ → Tracker → List TxRow
unfolding collect
rows_newest n t =
    let all = length t.order in
    let count : ℕ = elim n [ pos k ↦ if k == 0 || ltb all k then all else k | negsuc k ↦ all ] in
    collect count t.rows (reverse t.order)

unfoldable pub row_of : String → Tracker → Option TxRow
row_of txid t = Option.map (λ (e : Tracked). e.row) (lookup txid t.rows)
