-- ===== src/Alerts/Sync/Delivery.antt =====
-- bsv-regtest/alerts/host.go: a push to a peer that pulls what it lacks. The peer is the alert
-- library's, of which it is documented that it asks for the alerts behind its latest one by one.
use mathlib.Core.List.{append_assoc, append-nil}
use chaos_test.Common.{
  ℕ, zero, suc, ◌+◌, ◌≤◌, ◌≡◌, refl, ap, sym, ◌∙◌, true, String, none, some, List, [], ◌∷◌, ◌++◌,
  arith,
}
use chaos_test.Alerts.{Bytes}
use chaos_test.Alerts.Log.{Log}
use chaos_test.Alerts.Sync.{
  Message, got_latest, got_sequence, want_sequence, Stream, hangs_up, sends, Host, wire, offered,
  offer, alert_message, latest_message, serves, react, serve_or_refuse, PushResult, Pushed, ended,
  sent_first, push_loop, Dialed, push_on, push_to, push, set_watermark,
}

-- `n` sequence numbers, one behind the other.
abbrev pub range : ℕ → ℕ → List ℕ
range k zero = []
range k (suc n) = k ∷ range (suc k) n

-- A peer that asks for `n` alerts one by one and closes.
abbrev pub pulls : ℕ → ℕ → Stream
pulls k zero = hangs_up
pulls k (suc n) =
    sends (record { kind = want_sequence; sequence = k; body = [] }) true (pulls (suc k) n)

-- The log has `n` alerts from `k` on.
abbrev pub Holds : Log → ℕ → ℕ → Type 0
Holds log k zero = Unit
Holds log k (suc n) = ((w : Bytes) × (wire k log ≡ some w)) × Holds log (suc k) n

-- The announcement of an alert, and the alerts that the log has, each with its kind and its bytes.
abbrev pub announcement : ℕ → Bytes → Message
announcement seq w = record { kind = got_latest; sequence = seq; body = w }

abbrev pub alert_of : ℕ → Bytes → Message
alert_of seq w = record { kind = got_sequence; sequence = seq; body = w }

unfoldable pub alerts : (log : Log) (k n : ℕ) → Holds log k n → List Message
alerts log k zero held = []
alerts log k (suc n) ((w, e), held) = alert_of k w ∷ alerts log (suc k) n held

asked_for :
    (up_to k : ℕ) (log : Log) (w : Bytes)
    → k ≤ up_to
    → wire k log ≡ some w
    → react up_to log want_sequence k ≡ serves (alert_message k w)
unfolding react serve_or_refuse offer offered
asked_for up_to k log w h e = ground (arith, h, e)

-- What is left of a talk in which the peer has all that it asks for.
Complete : PushResult → List ℕ → List Message → Pushed → Type 0
Complete res ks ms r =
    (r.result ≡ some (record res { delivered = res.delivered ++ ks }))
    × (r.sent ≡ ms)
    × (r.err ≡ none)

pulled :
    (up_to k n : ℕ) (log : Log) (res : PushResult)
    → k + n ≤ suc up_to
    → (held : Holds log k n)
    → Complete res (range k n) (alerts log k n held) (push_loop up_to log res (pulls k n))
unfolding Complete push_loop ended sent_first alert_message alerts
pulled up_to k zero log res h held =
    (ap (λ ks. some (record res { delivered = ks })) (sym (append-nil res.delivered)), refl, refl)
pulled up_to k (suc n) log res h ((w, e), held) =
    let next : PushResult = record res { delivered = res.delivered ++ k ∷ [] } in
    let (is_result, is_sent, is_err) = pulled up_to (suc k) n log next (omega arith) held in
    rw (asked_for up_to k log w (omega arith) e, push_loop)
      (
        is_result
            ∙ ap (λ ks. some (record res { delivered = ks }))
                (append_assoc res.delivered (k ∷ []) (range (suc k) n)),
        ap (◌∷◌ (alert_of k w)) is_sent,
        is_err,
      )

-- The peer is dialled, and its stream opens and can be written.
abbrev pub pulling : String → ℕ → ℕ → Dialed
pulling p k n = record { peer = some p; opens = true; can_write = true; stream = pulls k n }

-- Where the peer is dialled, and its stream opens and can be written: a push of an alert that is in
-- the log, to a peer that asks for `n` alerts up to it, one by one, which the log has too, writes the
-- announcement of the alert, with its bytes, and then exactly these alerts in their order, each with
-- the log's bytes; it reports their numbers as delivered and no error, and leaves the alert's number
-- as the peer's mark.
pub push-delivers :
    (up_to k n : ℕ) (p : String) (w : Bytes) (hh : Host)
    → k + n ≡ suc up_to
    → wire up_to hh.log ≡ some w
    → (held : Holds hh.log k n)
    → ((push up_to (pulling p k n) hh).0.result
        ≡ some (record { peer_latest_before = 0; delivered = range k n }))
      × ((push up_to (pulling p k n) hh).0.sent ≡ announcement up_to w ∷ alerts hh.log k n held)
      × ((push up_to (pulling p k n) hh).0.err ≡ none)
      × ((push up_to (pulling p k n) hh).1 ≡ set_watermark p up_to hh)
unfolding push push_to push_on sent_first latest_message Complete
push-delivers up_to k n p w hh h e held =
    let start : PushResult = record { peer_latest_before = 0; delivered = [] } in
    let (is_result, is_sent, is_err) = pulled up_to k n hh.log start (omega arith) held in
    rw (e, push) (is_result, ap (◌∷◌ (announcement up_to w)) is_sent, is_err, refl)
