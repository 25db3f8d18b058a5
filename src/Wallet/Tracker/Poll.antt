-- ===== src/Wallet/Tracker/Poll.antt =====
-- internal/walletsvc/tracker.go: which rows are due, and what arcade's answers do to them.
use Prim.Native.String.{len, slice, ◌++◌ as concat}
use chaos_test.Common.{
  ℕ, zero, suc, String, Bool, true, false, not, ◌&&◌, Option, none, some, List, [], ◌∷◌, ◌++◌, ltb,
  ◌==◌, str_eq, if◌then◌else◌, length, take,
}
use chaos_test.Common.Dict.{Dict, lookup, insert}
use chaos_test.Observe.Bus.{text, num, texts}
use chaos_test.Arcade.{TxRecord, is_settled, status_unknown, status_rejected, status_not_found}
use chaos_test.Wallet.Tracker.{
  Tracker, Tracked, TxRow, Notice, rfc3339, rejected_grace, not_found_grace, older, divergence,
}

pub record Candidate : Type 0 where
  pub id : String
  pub at : ℕ

unfoldable pub candidates : Dict Tracked → List Candidate
candidates [] = []
candidates ((id, e) ∷ m) =
    let rest = candidates m in
    if e.row.terminal then rest else record { id = id; at = e.last_polled } ∷ rest

-- One round of the inner loop: the earliest of `x` and of the list comes first, and every element
-- that gives way takes the place of the one that it gave way to.
unfoldable pub select : Candidate → List Candidate → Candidate × List Candidate
select x [] = (x, [])
select x (y ∷ ys) =
    let earlier : Candidate = if ltb y.at x.at then y else x in
    let later : Candidate = if ltb y.at x.at then x else y in
    let (m, rest) = select earlier ys in (m, later ∷ rest)

-- The outer loop, one round for each unit of fuel.
unfoldable pub exchange_sort : ℕ → List Candidate → List Candidate
exchange_sort zero xs = xs
exchange_sort (suc f) [] = []
exchange_sort (suc f) (x ∷ xs) = let (m, rest) = select x xs in m ∷ exchange_sort f rest

-- The map's order of iteration is the order of the entries, which no lemma fixes.
unfoldable pub due : ℕ → Tracker → List Candidate
due limit t = let cs = candidates t.rows in take limit (exchange_sort (length cs) cs)

unfoldable pub touch : String → ℕ → Tracker → Tracker
touch txid now t = elim (lookup txid t.rows) [
  | some e ↦ record t { rows = insert txid (record e { last_polled = now }) t.rows }
  | none ↦ t
]

-- `len(s) > 12` and `s[:12]` count bytes.
short_id : String → String
short_id s = if ltb 12 (len s) then concat (slice s 0 12) "…" else s

-- The fields that arcade's record overwrites.
unfoldable pub absorb : TxRecord → ℕ → TxRow → TxRow
absorb rec now row = record row {
  arcade_status = rec.status;
  checked_at = rfc3339 now;
  block_height = if ltb 0 rec.block_height then rec.block_height else row.block_height;
  extra_info = if str_eq rec.extra_info "" then row.extra_info else rec.extra_info;
  competing_txs = elim rec.competing_txs [ [] ↦ row.competing_txs | _ ∷ _ ↦ rec.competing_txs ];
}

-- The switch on arcade's status: what ends the polling of a row, and what the rejection clock does.
unfoldable pub settle : String → ℕ → Tracked → Tracked
settle status now e =
    if is_settled status
    then record e { row = record e.row { terminal = true } }
    else if str_eq status status_rejected
    then if e.rejected_at == 0
      then record e { rejected_at = now }
      else if older now e.rejected_at rejected_grace
      then record e { row = record e.row { terminal = true } }
      else e
    else if str_eq status status_not_found
    then if older now e.created not_found_grace
      then record e { row = record e.row { arcade_status = status_unknown; terminal = true } }
      else e
    else record e { rejected_at = 0 }

unfoldable pub observe : TxRecord → ℕ → Tracked → Tracked
observe rec now e =
    settle rec.status now (record e { last_polled = now; row = absorb rec now e.row })

pub divergence_notice : String → String → TxRow → Notice
unfolding short_id
divergence_notice txid why row = record {
  kind = "wallet_divergence";
  node = "";
  message = concat "wallet and network disagree about " (concat (short_id txid) (concat ": " why));
  attrs =
      ("txid", text txid)
      ∷ ("walletStatus", text row.wallet_status)
      ∷ ("arcadeStatus", text row.arcade_status)
      ∷ ("blockHeight", num row.block_height)
      ∷ ("extraInfo", text row.extra_info)
      ∷ ("competingTxs", texts row.competing_txs)
      ∷ [];
}

-- The row that is stored, and what is published: an event at the rising edge of `Diverged` only.
unfoldable pub apply_row : Bool → String → TxRecord → ℕ → Tracked → Tracked × List Notice
unfolding divergence_notice
apply_row has_bus txid rec now e =
    let seen : Tracked = observe rec now e in
    elim (divergence seen.row seen.rejected_at now) [
      | none ↦ (record seen { row = record seen.row { diverged = false } }, [])
      | some why ↦
          let row : TxRow = record seen.row { diverged = true } in
          (
            record seen { row = row },
            if not seen.row.diverged && has_bus then divergence_notice txid why row ∷ [] else [],
          )
    ]

unfoldable pub apply : String → TxRecord → ℕ → Tracker → Tracker × List Notice
apply txid rec now t = elim (lookup txid t.rows) [
  | none ↦ (t, [])
  | some e ↦
      let (e', notices) = apply_row t.has_bus txid rec now e in
      (record t { rows = insert txid e' t.rows }, notices)
]

abbrev pub not_found_record : String → TxRecord
not_found_record id = record {
  tx_id = id;
  status = status_not_found;
  status_code = 0;
  block_hash = "";
  block_height = 0;
  merkle_path = "";
  extra_info = "";
  competing_txs = [];
  timestamp = "";
}

-- What `GetTx` returns: ErrTxNotFound, another error, or a record.
pub data Answer : Type 0 where
  not_found failed : Answer
  found : TxRecord → Answer

-- One question to arcade: the answer, the instant at which it is applied, and whether the caller's
-- context has ended by then.
pub record Reply : Type 0 where
  pub answer : Answer
  pub now : ℕ
  pub ended : Bool

unfoldable pub handle : String → Reply → Tracker → Tracker × List Notice
handle id r t = elim r.answer [
  | not_found ↦ apply id (not_found_record id) r.now t
  | failed ↦ (touch id r.now t, [])
  | found rec ↦ apply id rec r.now t
]

unfoldable pub poll_ids : (String → Reply) → List Candidate → Tracker → Tracker × List Notice
poll_ids ask [] t = (t, [])
poll_ids ask (c ∷ cs) t =
    let (t', notices) = handle c.id (ask c.id) t in
    let (t'', more) = poll_ids ask cs t' in
    if (ask c.id).ended then (t', notices) else (t'', notices ++ more)

-- `none` is a tracker with no arcade.
unfoldable pub poll : Option (String → Reply) → ℕ → Tracker → Tracker × List Notice
poll none limit t = (t, [])
poll (some ask) limit t = poll_ids ask (due limit t) t
