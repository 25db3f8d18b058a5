-- ===== src/Alerts/Sync.antt =====
-- bsv-regtest/alerts/host.go: the publisher's host, which speaks the sync protocol with its peers.
-- A stream is what a peer sends on it, with whether the answer to each message can be written. The
-- frames and libp2p are the libraries'; that a peer is dialled, a stream opened and a frame written
-- are answers.
use chaos_test.Common.{
  ℕ, suc, ◌+◌, Bool, true, false, not, ◌||◌, String, Option, none, some, List, [], ◌∷◌, ◌++◌, ltb,
  ◌==◌, if◌then◌else◌,
}
use chaos_test.Common.Dict.{Dict, lookup, insert}
use chaos_test.Alerts.{Bytes}
use chaos_test.Alerts.Log.{Log, get}
pub mod Capped
pub mod Told
pub mod Delivery
mod Examples

-- The protocol's types of a message; any other one is an `unknown`.
pub data Kind : Type 0 where
  want_latest got_latest want_sequence got_sequence : Kind
  unknown : ℕ → Kind

pub record Message : Type 0 where
  pub kind : Kind
  pub sequence : ℕ
  pub body : Bytes

-- `hangs_up` is an end of the stream, or a reset; `breaks` any other error of a read.
pub data Stream : Type 0 where
  hangs_up : Stream
  breaks : String → Stream
  sends : (msg : Message) (can_write : Bool) (rest : Stream) → Stream

pub record Host : Type 0 where
  pub log : Log
  pub watermarks : Dict ℕ
  pub default_wm : ℕ

-- `Log.Wire`
unfoldable pub wire : ℕ → Log → Option Bytes
wire seq log = elim (get seq log) [ some e ↦ some e.alert.wire | none ↦ none ]

unfoldable pub set_default_watermark : ℕ → Host → Host
set_default_watermark seq hh = record hh { default_wm = seq }

unfoldable pub set_watermark : String → ℕ → Host → Host
set_watermark p seq hh = record hh { watermarks = insert p seq hh.watermarks }

unfoldable pub watermark : String → Host → ℕ
watermark p hh = elim (lookup p hh.watermarks) [ some w ↦ w | none ↦ hh.default_wm ]

-- The bytes of an alert, where the log has it and it is not above the mark.
unfoldable pub offered : ℕ → ℕ → Log → Option Bytes
offered mark seq log = elim (wire seq log) [
  | some w ↦ if ltb mark seq then none else some w
  | none ↦ none
]

or_empty : Option Bytes → Bytes
or_empty (some w) = w
or_empty none = []

latest_message : ℕ → Bytes → Message
latest_message mark w = record { kind = got_latest; sequence = mark; body = w }

alert_message : ℕ → Bytes → Message
alert_message seq w = record { kind = got_sequence; sequence = seq; body = w }

offer : Option Bytes → ℕ → Option Message
unfolding alert_message
offer (some w) seq = some (alert_message seq w)
offer none seq = none

-- The answer of `serve` to a message; none where it closes the stream.
answer : ℕ → Log → Kind → ℕ → Option Message
unfolding or_empty latest_message offer
answer mark log want_latest seq = some (latest_message mark (or_empty (wire mark log)))
answer mark log want_sequence seq = offer (offered mark seq log) seq
answer mark log _ seq = none

-- The loop of `serve`, for a mark that is read once: what it writes on the stream.
unfoldable pub serve_loop : ℕ → Log → Stream → List Message
unfolding answer
serve_loop mark log hangs_up = []
serve_loop mark log (breaks err) = []
serve_loop mark log (sends msg can_write rest) =
    let later = serve_loop mark log rest in
    elim (answer mark log msg.kind msg.sequence) [
      | some m ↦ if can_write then m ∷ later else []
      | none ↦ []
    ]

unfoldable pub serve : String → Stream → Host → List Message
serve p stream hh = serve_loop (watermark p hh) hh.log stream

pub record PushResult : Type 0 where
  pub peer_latest_before : ℕ
  pub delivered : List ℕ

-- The errors, by what has failed, with the text of a read's.
pub data Failure : Type 0 where
  not_in_log : ℕ → Failure
  not_connected no_stream not_written unexpected : Failure
  not_read : String → Failure

-- What a push comes to: the result, what was written on the stream, and the error.
pub record Pushed : Type 0 where
  pub result : Option PushResult
  pub sent : List Message
  pub err : Option Failure

ended : PushResult → Option Failure → Pushed
ended res err = record { result = some res; sent = []; err = err }

sent_first : Message → Pushed → Pushed
sent_first m r = record r { sent = m ∷ r.sent }

-- What `Push` does with a message: it serves an alert, refuses one, notes the peer's latest, or goes
-- on.
pub data Reaction : Type 0 where
  serves : Message → Reaction
  refuses notes skips : Reaction

serve_or_refuse : Option Message → Reaction
serve_or_refuse (some m) = serves m
serve_or_refuse none = refuses

react : ℕ → Log → Kind → ℕ → Reaction
unfolding serve_or_refuse offer
react up_to log want_sequence seq = serve_or_refuse (offer (offered up_to seq log) seq)
react up_to log got_latest seq = notes
react up_to log _ seq = skips

-- The loop of `Push`, with what it has delivered so far.
unfoldable pub push_loop : ℕ → Log → PushResult → Stream → Pushed
unfolding ended sent_first react
push_loop up_to log res hangs_up = ended res none
push_loop up_to log res (breaks err) = ended res (some (not_read err))
push_loop up_to log res (sends msg can_write rest) =
    let served =
      push_loop up_to log (record res { delivered = res.delivered ++ msg.sequence ∷ [] }) rest in
    let noted = push_loop up_to log (record res { peer_latest_before = msg.sequence }) rest in
    let skipped = push_loop up_to log res rest in
    elim (react up_to log msg.kind msg.sequence) [
      | serves m ↦ if can_write then sent_first m served else ended res (some not_written)
      | refuses ↦ ended res none
      | notes ↦ noted
      | skips ↦ skipped
    ]

-- What the network gives a push: the peer behind the address, or an error; whether a stream can be
-- opened; whether the first frame can be written; and the peer's stream.
pub record Dialed : Type 0 where
  pub peer : Option String
  pub opens : Bool
  pub can_write : Bool
  pub stream : Stream

failed : Failure → Pushed
failed err = record { result = none; sent = []; err = some err }

push_on : ℕ → Bytes → Dialed → Log → Pushed
unfolding failed latest_message sent_first
push_on up_to w d log =
    let talk = push_loop up_to log (record { peer_latest_before = 0; delivered = [] }) d.stream in
    if not d.opens
    then failed no_stream
    else if d.can_write
    then sent_first (latest_message up_to w) talk
    else failed not_written

push_to : ℕ → Bytes → Dialed → Host → Option String → Pushed × Host
unfolding failed push_on
push_to up_to w d hh none = (failed not_connected, hh)
push_to up_to w d hh (some p) = (push_on up_to w d hh.log, set_watermark p up_to hh)

unfoldable pub push : ℕ → Dialed → Host → Pushed × Host
unfolding failed push_to
push up_to d hh = elim (wire up_to hh.log) [
  | some w ↦ push_to up_to w d hh d.peer
  | none ↦ (failed (not_in_log up_to), hh)
]

-- What a probe gets: the sequence of the answer to `want_latest`, or the error.
pub data Probed : Type 0 where
  latest_is : ℕ → Probed
  fails : Failure → Probed

probe_answer : Stream → Probed
probe_answer hangs_up = fails (not_read "EOF")
probe_answer (breaks err) = fails (not_read err)
probe_answer (sends msg can_write rest) = elim msg.kind [
  | got_latest ↦ latest_is msg.sequence
  | _ ↦ fails unexpected
]

probe_on : Dialed → Probed
unfolding probe_answer
probe_on d =
    if not d.opens
    then fails no_stream
    else if d.can_write
    then probe_answer d.stream
    else fails not_written

-- The deferred close: a failed probe closes the connection to the peer.
with_close : Probed → Probed × Bool
with_close (latest_is seq) = (latest_is seq, false)
with_close (fails f) = (fails f, true)

-- `Probe`, with whether it closes the connection.
unfoldable pub probe : Dialed → Probed × Bool
unfolding probe_on with_close
probe d = elim d.peer [ none ↦ (fails not_connected, false) | some p ↦ with_close (probe_on d) ]
