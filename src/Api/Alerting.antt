-- ===== src/Api/Alerting.antt =====
-- internal/api/server.go: an alert is built, signed and recorded (`BuildAlert`), and pushed to a node
-- (`PushAlert`), and listed for the front end. The library's text of an alert is left out; the watched
-- outputs and the events are what the calls hand to the fleet and the bus.
use chaos_test.Common.{
  ℕ, ◌+◌, ◌%◌, ◌^◌, String, Bool, true, false, ◌||◌, Option, none, some, List, [], ◌∷◌, map, ◌==◌,
  if◌then◌else◌,
}
use chaos_test.Logs.Text.{Text}
use chaos_test.Alerts.{Bytes, Fund, type_freeze_utxo, type_unfreeze_utxo}
use chaos_test.Alerts.Funds.{
  ModelFund, Payload, ok, no_funds, bad_txid, funds_payload, Decoded, funds, decode_funds,
}
use chaos_test.Alerts.Hex.{decode_hex}
use chaos_test.Alerts.Log.{Alert, Entry, Log, Appended, recorded, taken, append, entries, latest}
use chaos_test.Alerts.Payloads.{
  type_informational, type_confiscate_utxo, type_ban_peer, type_unban_peer, type_invalidate_block,
  type_set_keys, type_name, parse_type, informational_payload, invalidate_block_payload,
  confiscate_payload, peer_payload, set_keys_payload, Signed, build,
}
use chaos_test.Alerts.Sync.{Host, Dialed, Pushed, push}
use chaos_test.Topology.{Inventory, Node, node}
pub mod Next
mod Examples

pub record BuildRequest : Type 0 where
  pub kind : Text
  pub sequence : ℕ
  pub funds : List Fund
  pub message : Text
  pub block_hash : Text
  pub reason : Text
  pub enforce_at : ℕ
  pub tx_hex : Text
  pub peer : Text
  pub pub_keys : List Text
  pub note : String
  pub watch : Bool

-- The alert library, and the keys that the server signs with.
pub record Library : Type 0 where
  pub write_int_bytes : Bytes → Bytes
  pub serialize : ModelFund → Bytes
  pub sign : ℕ → ℕ → ℕ → Bytes → List Text → Option Signed
  pub signing : List Text

of_funds : Payload → Option Bytes
of_funds (ok bs) = some bs
of_funds no_funds = none
of_funds bad_txid = none

informational : Library → Text → Option Bytes
informational lib [] = none
informational lib (c ∷ message) = some (informational_payload lib.write_int_bytes (c ∷ message))

confiscation : Library → ℕ → Option Bytes → Option Bytes
confiscation lib enforce_at none = none
confiscation lib enforce_at (some raw) = confiscate_payload lib.write_int_bytes enforce_at raw

-- The payload by the type; none for an error.
unfoldable pub payload_of : Library → BuildRequest → ℕ → Option Bytes
unfolding of_funds informational confiscation
payload_of lib req typ =
    if typ == type_freeze_utxo || typ == type_unfreeze_utxo
    then of_funds (funds_payload lib.serialize req.funds)
    else if typ == type_informational
    then informational lib req.message
    else if typ == type_invalidate_block
    then invalidate_block_payload lib.write_int_bytes req.block_hash req.reason
    else if typ == type_confiscate_utxo
    then confiscation lib req.enforce_at (decode_hex req.tx_hex)
    else if typ == type_ban_peer || typ == type_unban_peer
    then peer_payload lib.write_int_bytes req.peer req.reason
    else if typ == type_set_keys
    then set_keys_payload req.pub_keys
    else some []

-- The next number wraps as a uint32 does.
unfoldable pub sequence_of : BuildRequest → Log → ℕ
sequence_of req log = if req.sequence == 0 then (latest log + 1) % 2 ^ 32 else req.sequence

-- What a call comes to: the entry, or none for an error; the log; the outputs that are watched from
-- now on; and the sequences of the alerts that are announced on the bus.
pub record Built : Type 0 where
  pub entry : Option Entry
  pub log : Log
  pub watched : List (Text × ℕ)
  pub announced : List ℕ

unfoldable pub refused : Log → Built
refused log = record { entry = none; log = log; watched = []; announced = [] }

unfoldable pub outpoint_of : Fund → Text × ℕ
outpoint_of f = (f.tx_id, f.vout)

-- An alert that is recorded but not saved is an error, and stays recorded.
from_append : BuildRequest → Log → Appended → Built
unfolding refused outpoint_of
from_append req old (taken hash) = refused old
from_append req old (recorded e log (some err)) = refused log
from_append req old (recorded e log none) = record {
  entry = some e;
  log = log;
  watched = if req.watch then map outpoint_of req.funds else [];
  announced = e.alert.sequence ∷ [];
}

from_alert : BuildRequest → ℕ → Option String → Log → Option Alert → Built
unfolding refused from_append
from_alert req now save log none = refused log
from_alert req now save log (some a) = from_append req log (append a req.note now save log)

from_payload : Library → BuildRequest → ℕ → ℕ → Option String → Log → Option Bytes → Built
unfolding refused from_alert
from_payload lib req typ now save log none = refused log
from_payload lib req typ now save log (some payload) =
    from_alert req now save log (build lib.sign (sequence_of req log) typ payload now lib.signing)

from_type : Library → BuildRequest → ℕ → Option String → Log → Option ℕ → Built
unfolding refused from_payload
from_type lib req now save log none = refused log
from_type lib req now save log (some typ) =
    from_payload lib req typ now save log (payload_of lib req typ)

-- `save` is the error of the log's file.
unfoldable pub build_alert : Library → BuildRequest → ℕ → Option String → Log → Built
unfolding from_type
build_alert lib req now save log = from_type lib req now save log (parse_type req.kind)

pub record AlertSummary : Type 0 where
  pub sequence : ℕ
  pub type_text : Text
  pub hash : String
  pub note : String
  pub created_at : ℕ
  pub funds : List Fund

or_no_funds : Decoded → List Fund
or_no_funds (funds fs) = fs
or_no_funds _ = []

unfoldable pub summary_of : (Bytes → Option (ℕ × Bytes)) → Entry → AlertSummary
unfolding or_no_funds
summary_of parse e = record {
  sequence = e.alert.sequence;
  type_text = type_name e.alert.kind;
  hash = e.alert.hash;
  note = e.note;
  created_at = e.created_at;
  funds = or_no_funds (decode_funds parse e.alert.wire);
}

-- `parse` is the library's parser of a message.
unfoldable pub alert_summaries : (Bytes → Option (ℕ × Bytes)) → Log → List AlertSummary
alert_summaries parse log = map (summary_of parse) (entries log)

-- What a push by the server comes to.
pub data Push : Type 0 where
  host_disabled unknown_node : Push
  pushed : (seq : ℕ) → Pushed → Push

push_to_node : ℕ → Dialed → Option Node → Host → Push × Host
push_to_node seq d none hh = (unknown_node, hh)
push_to_node seq d (some n) hh = let r = push seq d hh in (pushed seq r.0, r.1)

-- `dials` is what the network gives for a node; the host is none where it is disabled.
unfoldable pub push_alert :
    Inventory → (String → Dialed) → String → ℕ → Option Host → Push × Option Host
unfolding push_to_node
push_alert inv dials name seq none = (host_disabled, none)
push_alert inv dials name seq (some hh) =
    let up_to = if seq == 0 then latest hh.log else seq in
    let r = push_to_node up_to (dials name) (node name inv) hh in (r.0, some r.1)
