-- ===== src/Observe/Fleet/Watch.antt =====
-- internal/observe/fleet.go: the watched outputs.
use Prim.Native.String.{◌++◌ as concat}
use chaos_test.Common.{
  ℕ, ◌+◌, String, Bool, false, not, ◌&&◌, Option, none, some, List, [], ◌∷◌, ◌==◌, str_eq,
  if◌then◌else◌,
}
use chaos_test.Common.Dict.{lookup, insert, delete, has}
use chaos_test.Common.Text.{itoa}
use chaos_test.Wallet.Tracker.{Notice}
use chaos_test.Observe.Bus.{text, num}
use chaos_test.Logs.Text.{codes}
use chaos_test.Svnode.{BlacklistFund, frozen_at}
use chaos_test.Observe.Snapshot.{Reply, failed, got, OutpointView, OutpointState}
use chaos_test.Observe.Fleet.{Fleet, state_of, short}

unfoldable pub key : String → ℕ → String
key txid vout = concat txid (concat ":" (itoa vout))

unfoldable pub watch : String → ℕ → String → Fleet → Fleet
watch txid vout label f = elim (lookup (key txid vout) f.watched) [
  | none ↦ record f {
    watched =
        insert (key txid vout) (record { tx_id = txid; vout = vout; label = label; per_node = [] })
          f.watched;
  }
  | some w ↦
      if str_eq label ""
      then f
      else record f { watched = insert (key txid vout) (record w { label = label }) f.watched }
]

unfoldable pub unwatch : String → ℕ → Fleet → Fleet
unwatch txid vout f = record f { watched = delete (key txid vout) f.watched }

unfoldable pub outpoint : String → ℕ → Fleet → Option OutpointState
outpoint txid vout f = lookup (key txid vout) f.watched

abbrev pub no_view : OutpointView
no_view = record { status = ""; spent_by = ""; utxo_hash = ""; satoshis = 0; error = "" }

unfoldable pub utxo_notice : String → String → ℕ → String → String → Notice
utxo_notice node txid vout status prev = record {
  kind = "utxo";
  node = node;
  message = concat node (
      concat " sees "
        (concat (short txid) (concat ":" (concat (itoa vout) (concat " as " status)))));
  attrs =
      ("txid", text txid) ∷ ("vout", num vout) ∷ ("status", text status) ∷ ("prev", text prev) ∷ [];
}

-- The event of `record`, by what the node's view was before.
unfoldable pub status_events :
    String → String → ℕ → Option OutpointView → OutpointView → List Notice
status_events node txid vout none v = utxo_notice node txid vout v.status "" ∷ []
status_events node txid vout (some old) v =
    if str_eq old.status v.status then [] else utxo_notice node txid vout v.status old.status ∷ []

-- `record`
unfoldable pub record_view : String → String → ℕ → OutpointView → Fleet → List Notice × Fleet
record_view node txid vout v f = elim (lookup (key txid vout) f.watched) [
  | none ↦ ([], f)
  | some cur ↦ (
    status_events node txid vout (lookup node cur.per_node) v,
    record f {
      watched =
          insert (key txid vout) (record cur { per_node = insert node v cur.per_node }) f.watched;
    },
  )
]

-- One row of a teranode's answer; the spender is that of `SpendingData`, where it is there.
pub record Utxo : Type 0 where
  pub vout : ℕ
  pub status : String
  pub utxo_hash : String
  pub satoshis : ℕ
  pub spender : Option String

row_view : Utxo → OutpointView
row_view o =
    let v : OutpointView = record no_view {
      status = o.status;
      utxo_hash = o.utxo_hash;
      satoshis = o.satoshis;
    } in
    elim o.spender [
      | none ↦ v
      | some txid ↦
          if not (str_eq txid "") && not (str_eq o.status "FROZEN")
          then record v { spent_by = txid }
          else v
    ]

-- The loop of `Refresh`: the last row of the output counts.
unfoldable pub view_of : ℕ → OutpointView → List Utxo → OutpointView
unfolding row_view
view_of vout v [] = v
view_of vout v (o ∷ os) = view_of vout (if o.vout == vout then row_view o else v) os

-- What the nodes answer about an output: a teranode its rows, an SV node the satoshis of `gettxout`,
-- none where it is spent or unknown, its blacklist, and whether it knows the transaction.
pub record Sight : Type 0 where
  pub utxos : Reply (List Utxo)
  pub tx_out : Reply (Option ℕ)
  pub blacklist : Reply (List BlacklistFund)
  pub known : Bool

-- `SVFrozen`, of an SV node.
unfoldable pub sv_frozen : String → String → ℕ → Reply (List BlacklistFund) → Fleet → Reply Bool
sv_frozen node txid vout (failed err) f = failed err
sv_frozen node txid vout (got funds) f =
    got (frozen_at funds (codes txid) vout ((state_of node f).height + 1))

frozen_now : Reply Bool → Bool
frozen_now (failed err) = false
frozen_now (got b) = b

-- What `refreshSV` derives, the error of `gettxout` apart.
unfoldable pub sv_view : String → String → ℕ → Option ℕ → Sight → Fleet → OutpointView
unfolding frozen_now
sv_view node txid vout (some sats) s f = record no_view {
  status = if frozen_now (sv_frozen node txid vout s.blacklist f) then "FROZEN" else "OK";
  satoshis = sats;
}
sv_view node txid vout none s f = record no_view {
  status = if s.known then "SPENT" else "NOT_FOUND";
}

unfoldable pub error_view : String → OutpointView
error_view err = record no_view { status = "ERROR"; error = err }

-- What `Refresh` returns: a view and the text of an error, if any; what it publishes; the fleet.
pub record Refreshed : Type 0 where
  pub view : OutpointView
  pub err : Option String
  pub said : List Notice
  pub fleet : Fleet

refused : OutpointView → String → Fleet → Refreshed
refused v err f = record { view = v; err = some err; said = []; fleet = f }

recorded : String → String → ℕ → OutpointView → Fleet → Refreshed
recorded node txid vout v f =
    let (said, f') = record_view node txid vout v f in
    record { view = v; err = none; said = said; fleet = f' }

unfoldable pub refresh_sv : String → String → ℕ → Sight → Fleet → Refreshed
unfolding refused recorded
refresh_sv node txid vout s f = elim s.tx_out [
  | failed err ↦ refused (error_view err) err f
  | got out ↦ recorded node txid vout (sv_view node txid vout out s f) f
]

unfoldable pub ask : String → String → ℕ → Sight → Fleet → Refreshed
unfolding refused recorded
ask node txid vout s f =
    if has node f.sv
    then refresh_sv node txid vout s f
    else if has node f.asset
    then elim s.utxos [
      | failed err ↦ refused (error_view err) err f
      | got rows ↦
          recorded node txid vout (view_of vout (record no_view { status = "NOT_FOUND" }) rows) f
    ]
    else refused (error_view "unknown node") (concat "unknown node \"" (concat node "\"")) f

unfoldable pub refresh : String → String → ℕ → Sight → Fleet → Refreshed
refresh node txid vout s f = ask node txid vout s (watch txid vout "" f)
