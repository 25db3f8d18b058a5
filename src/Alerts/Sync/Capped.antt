-- ===== src/Alerts/Sync/Capped.antt =====
-- bsv-regtest/alerts/host.go: what `serve` and `Push` write on a stream.
use mathlib.Core.List.{append_assoc, append-nil}
use chaos_test.Common.{
  ℕ, ◌≤◌, ◌≡◌, refl, ap, sym, ◌∙◌, ◌⊎◌, inl, inr, Bool, true, false, some, List, [], ◌∷◌, ◌++◌, map,
  arith, All, Option-cases,
}
use chaos_test.Alerts.{Bytes}
use chaos_test.Alerts.Log.{Log}
use chaos_test.Alerts.Sync.{
  Kind, want_latest, got_latest, want_sequence, got_sequence, unknown, Message, Stream, hangs_up,
  breaks, sends, wire, offered, or_empty, latest_message, alert_message, serve_loop, PushResult,
  Pushed, ended, sent_first, Reaction, serves, refuses, notes, skips, serve_or_refuse, react, offer,
  answer, push_loop,
}

-- The announcement of the mark, or an alert that is not above it, with the bytes of the log.
abbrev pub IsOffer : ℕ → Log → Message → Type 0
IsOffer mark log m =
    (m.kind ≡ got_latest) × (m.sequence ≡ mark)
    ⊎ (m.kind ≡ got_sequence) × (m.sequence ≤ mark) × (wire m.sequence log ≡ some m.body)

offered-wire :
    (mark seq : ℕ) (log : Log) (w : Bytes)
    → offered mark seq log ≡ some w
    → (seq ≤ mark) × (wire seq log ≡ some w)
unfolding offered
offered-wire mark seq log w h = elim (Option-cases (wire seq log)) [
  | inl e ↦ ground (arith, h, e)
  | inr (v, e) ↦ ground (arith, h, e)
]

offer-IsOffer :
    (mark seq : ℕ) (log : Log) (m : Message)
    → offer (offered mark seq log) seq ≡ some m
    → (m.sequence ≡ seq)
      × (m.kind ≡ got_sequence)
      × (m.sequence ≤ mark)
      × (wire m.sequence log ≡ some m.body)
unfolding offer alert_message
offer-IsOffer mark seq log m h = elim (Option-cases (offered mark seq log)) [
  | inl e ↦ ground (arith, h, e)
  | inr (w, e) ↦
      let is_m : alert_message seq w ≡ m = ground (arith, h, e) in
      let (le, is_wire) = offered-wire mark seq log w e in rw (sym is_m) (refl, refl, le, is_wire)
]

answer-IsOffer :
    (mark : ℕ) (log : Log) (k : Kind) (seq : ℕ) (m : Message)
    → answer mark log k seq ≡ some m
    → IsOffer mark log m
unfolding answer latest_message
answer-IsOffer mark log want_latest seq m h =
    let is_m : latest_message mark (or_empty (wire mark log)) ≡ m = cc in
    rw (sym is_m) (inl (refl, refl))
answer-IsOffer mark log want_sequence seq m h = inr (
  (offer-IsOffer mark seq log m h).1,
  (offer-IsOffer mark seq log m h).2,
  (offer-IsOffer mark seq log m h).3,
)
answer-IsOffer mark log got_latest seq m h = cc
answer-IsOffer mark log got_sequence seq m h = cc
answer-IsOffer mark log (unknown code) seq m h = cc

pub serve_loop-IsOffer :
    (mark : ℕ) (log : Log) (s : Stream) → All (IsOffer mark log) (serve_loop mark log s)
unfolding serve_loop
serve_loop-IsOffer mark log hangs_up = tt
serve_loop-IsOffer mark log (breaks err) = tt
serve_loop-IsOffer mark log (sends msg true rest) =
    elim (Option-cases (answer mark log msg.kind msg.sequence)) [
      | inl e ↦ rw (e, serve_loop) tt
      | inr (m, e) ↦
          rw (e, serve_loop)
            (answer-IsOffer mark log msg.kind msg.sequence m e, serve_loop-IsOffer mark log rest)
    ]
serve_loop-IsOffer mark log (sends msg false rest) =
    elim (Option-cases (answer mark log msg.kind msg.sequence)) [
      | inl e ↦ rw (e, serve_loop) tt
      | inr (m, e) ↦ rw (e, serve_loop) tt
    ]

-- An alert that is not above the mark, with the bytes of the log.
abbrev pub IsAlert : ℕ → Log → Message → Type 0
IsAlert mark log m =
    (m.kind ≡ got_sequence) × (m.sequence ≤ mark) × (wire m.sequence log ≡ some m.body)

-- Of the sequences that a push reports, and the messages that it writes.
abbrev pub sequences : List Message → List ℕ
sequences ms = map (λ (m : Message). m.sequence) ms

abbrev pub Reports : ℕ → Log → PushResult → Pushed → Type 0
Reports up_to log res r =
    All (IsAlert up_to log) r.sent
    × ((out : PushResult) × (r.result ≡ some out)
        × (out.delivered ≡ res.delivered ++ sequences r.sent))

react-serves :
    (up_to : ℕ) (log : Log) (k : Kind) (seq : ℕ) (m : Message)
    → react up_to log k seq ≡ serves m
    → (m.sequence ≡ seq)
      × (m.kind ≡ got_sequence)
      × (m.sequence ≤ up_to)
      × (wire m.sequence log ≡ some m.body)
unfolding react serve_or_refuse
react-serves up_to log want_sequence seq m h =
    elim (Option-cases (offer (offered up_to seq log) seq)) [
      | inl e ↦ ground (arith, h, e)
      | inr (n, e) ↦
          let same : n ≡ m = ground (arith, h, e) in offer-IsOffer up_to seq log m (rw (sym same) e)
    ]
react-serves up_to log want_latest seq m h = cc
react-serves up_to log got_latest seq m h = cc
react-serves up_to log got_sequence seq m h = cc
react-serves up_to log (unknown code) seq m h = cc

push_step :
    (up_to : ℕ) (log : Log) (res : PushResult) (msg : Message) (can_write : Bool) (rest : Stream)
    → ((res : PushResult) → Reports up_to log res (push_loop up_to log res rest))
    → (r : Reaction) → react up_to log msg.kind msg.sequence ≡ r
    → Reports up_to log res (push_loop up_to log res (sends msg can_write rest))
unfolding push_loop ended sent_first
push_step up_to log res msg can_write rest later refuses e =
    rw (e, push_loop) (tt, (res, refl, sym (append-nil res.delivered)))
push_step up_to log res msg can_write rest later notes e =
    rw (e, push_loop) (later (record res { peer_latest_before = msg.sequence }))
push_step up_to log res msg can_write rest later skips e = rw (e, push_loop) (later res)
push_step up_to log res msg false rest later (serves m) e =
    rw (e, push_loop) (tt, (res, refl, sym (append-nil res.delivered)))
push_step up_to log res msg true rest later (serves m) e =
    let next : PushResult = record res { delivered = res.delivered ++ msg.sequence ∷ [] } in
    let more : List ℕ = sequences (push_loop up_to log next rest).sent in
    let (good, (out, is_out, told)) = later next in
    let (same, is_alert, le, is_wire) = react-serves up_to log msg.kind msg.sequence m e in
    rw (e, push_loop)
      (
        ((is_alert, le, is_wire), good),
        (
          out,
          is_out,
          told
              ∙ append_assoc res.delivered (msg.sequence ∷ []) more
              ∙ ap (λ q. res.delivered ++ q ∷ more) (sym same),
        ),
      )

pub push_loop-Reports :
    (up_to : ℕ) (log : Log) (res : PushResult) (s : Stream)
    → Reports up_to log res (push_loop up_to log res s)
unfolding push_loop ended
push_loop-Reports up_to log res hangs_up = (tt, (res, refl, sym (append-nil res.delivered)))
push_loop-Reports up_to log res (breaks err) = (tt, (res, refl, sym (append-nil res.delivered)))
push_loop-Reports up_to log res (sends msg can_write rest) =
    push_step up_to log res msg can_write rest (λ r. push_loop-Reports up_to log r rest)
      (react up_to log msg.kind msg.sequence) refl
