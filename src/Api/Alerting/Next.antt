-- ===== src/Api/Alerting/Next.antt =====
-- internal/api/server.go: an alert that is built without a number gets the next one, and a push
-- without a number delivers it.
use chaos_test.Common.{
  ℕ, ◌+◌, ◌<◌, ◌≡◌, refl, ap, sym, ◌∙◌, ◌⊎◌, inl, inr, String, Option, none, some, List, [], ◌∷◌,
  map, arith, if◌then◌else◌, Option-cases,
}
use mathlib.Core.Path.{subst}
use chaos_test.Logs.Text.{Text}
use chaos_test.Alerts.{Bytes}
use chaos_test.Alerts.Log.{Alert, Entry, Log, append, get, latest}
use chaos_test.Alerts.Log.Fresh.{get-above-latest, append-fresh, IsRecorded, put-IsRecorded}
use chaos_test.Alerts.Payloads.{parse_type, Signed, build}
use chaos_test.Alerts.Sync.{Host, Dialed, Pushed, push, wire}
use chaos_test.Alerts.Sync.Delivery.{announcement, alert_of, alerts, pulling, push-delivers}
use chaos_test.Topology.{Inventory, Node, node}
use chaos_test.Api.Alerting.{
  BuildRequest, Library, payload_of, sequence_of, Built, refused, outpoint_of, from_append,
  from_alert, from_payload, from_type, build_alert, pushed, push_to_node, push_alert,
}

infixl 5 ◌>>=◌
abbrev pub ◌>>=◌ {ℓ κ} : {A : Type ℓ} {B : Type κ} → Option A → (A → Option B) → Option B
none >>= f = none
some a >>= f = f a

-- The alert that a request describes under a number: none where its type is unknown, its payload is
-- refused, or it cannot be built.
abbrev pub alert_for : Library → BuildRequest → ℕ → ℕ → Option Alert
alert_for lib req now seq = do
  typ ← parse_type req.kind
  payload ← payload_of lib req typ
  build lib.sign seq typ payload now lib.signing

-- Without an alert, nothing has come of a call. Else the alert is recorded under the number; if it was
-- saved, it is returned and announced, with its outputs watched as was asked; if not, the call is an
-- error.
abbrev pub IsNext : BuildRequest → Option String → ℕ → Log → Option Alert → Built → Type 0
IsNext req save seq old made b =
    (made ≡ none) × (b ≡ refused old)
    ⊎ ((e : Entry) × (made ≡ some e.alert)
        × IsRecorded seq e old b.log
        × ((save ≡ none)
              × (b.entry ≡ some e)
              × (b.announced ≡ seq ∷ [])
              × (b.watched ≡ (if req.watch then map outpoint_of req.funds else []))
            ⊎ ((err : String) × (save ≡ some err) × (b ≡ refused b.log))))

append-IsNext :
    (req : BuildRequest) (now : ℕ) (save : Option String) (log : Log) (a : Alert)
    → latest log < a.sequence
    → IsNext req save a.sequence log (some a) (from_append req log (append a req.note now save log))
unfolding from_append refused
append-IsNext req now none log a h =
    let e : Entry = record { alert = a; note = req.note; created_at = now } in
    let fresh : get a.sequence log ≡ none = get-above-latest log a.sequence h in
    rw (append-fresh a req.note now none log fresh)
      (inr (e, refl, put-IsRecorded a req.note now log h, inl (refl, refl, refl, refl)))
append-IsNext req now (some err) log a h =
    let e : Entry = record { alert = a; note = req.note; created_at = now } in
    let fresh : get a.sequence log ≡ none = get-above-latest log a.sequence h in
    rw (append-fresh a req.note now (some err) log fresh)
      (inr (e, refl, put-IsRecorded a req.note now log h, inr (err, refl, refl)))

build-sequence :
    (sign : ℕ → ℕ → ℕ → Bytes → List Text → Option Signed) (seq typ : ℕ) (payload : Bytes) (now : ℕ)
    (keys : List Text) (a : Alert)
    → build sign seq typ payload now keys ≡ some a
    → a.sequence ≡ seq
unfolding build
build-sequence sign seq typ payload now keys a h =
    elim (Option-cases (sign seq typ now payload keys)) [
      | inl e ↦ ground (arith, h, e)
      | inr (m, e) ↦ ground (arith, h, e)
    ]

from_alert-IsNext :
    (req : BuildRequest) (now : ℕ) (save : Option String) (log : Log) (seq : ℕ)
    (made : Option Alert)
    → ((a : Alert) → made ≡ some a → a.sequence ≡ seq)
    → latest log < seq
    → IsNext req save seq log made (from_alert req now save log made)
unfolding from_alert
from_alert-IsNext req now save log seq none hs h = inl (refl, refl)
from_alert-IsNext req now save log seq (some a) hs h =
    subst
      (λ n. IsNext req save n log (some a) (from_append req log (append a req.note now save log)))
      (hs a refl) (append-IsNext req now save log a (omega (arith, hs a refl, h)))

next_number :
    (req : BuildRequest) (log : Log)
    → req.sequence ≡ 0
    → latest log < 4294967295
    → sequence_of req log ≡ latest log + 1
unfolding sequence_of
next_number req log h small = ground arith

-- For a request without a number, where the highest number is below 2^32 - 1: `BuildAlert` refuses,
-- and leaves the log, exactly if there is no alert for the request under the next number. Else that
-- alert is recorded under this number, which is then the highest one, and what is recorded under the
-- others stays. If the log was saved, the alert is returned and announced, and the outputs of its
-- funds are watched where this was asked; if not, the call is an error.
pub build_alert-IsNext :
    (lib : Library) (req : BuildRequest) (now : ℕ) (save : Option String) (log : Log)
    → req.sequence ≡ 0
    → latest log < 4294967295
    → IsNext req save
        (latest log + 1)
        log
        (alert_for lib req now (latest log + 1))
        (build_alert lib req now save log)
unfolding build_alert from_type from_payload
build_alert-IsNext lib req now save log h small =
    let seq = latest log + 1 in
    elim (Option-cases (parse_type req.kind)) [
      | inl e ↦ rw (e, build_alert) (inl (refl, refl))
      | inr (typ, e) ↦ elim (Option-cases (payload_of lib req typ)) [
        | inl e' ↦ rw (e, e', build_alert) (inl (refl, refl))
        | inr (payload, e') ↦
            rw (e, e', next_number req log h small, build_alert)
              (from_alert-IsNext req now save log seq
                (build lib.sign seq typ payload now lib.signing)
                (λ a made. build-sequence lib.sign seq typ payload now lib.signing a made)
                (omega arith))
      ]
    ]

-- What a push of one alert comes to, where the peer asks for that one: it is announced and then
-- written, both times with its bytes.
abbrev pub IsDelivered : Entry → ℕ → Pushed → Type 0
IsDelivered e seq r =
    (r.result ≡ some (record { peer_latest_before = 0; delivered = seq ∷ [] }))
    × (r.sent ≡ announcement seq e.alert.wire ∷ alert_of seq e.alert.wire ∷ [])
    × (r.err ≡ none)

push_alert-latest :
    (inv : Inventory) (dials : String → Dialed) (name p : String) (n : Node) (hh : Host) (e : Entry)
    (seq : ℕ)
    → node name inv ≡ some n
    → dials name ≡ pulling p seq 1
    → get seq hh.log ≡ some e
    → latest hh.log ≡ seq
    → (r : Pushed) × ((push_alert inv dials name 0 (some hh)).0 ≡ pushed seq r)
      × IsDelivered e seq r
unfolding push_alert push_to_node wire alerts
push_alert-latest inv dials name p n hh e seq known answers held top =
    let has_wire : wire seq hh.log ≡ some e.alert.wire = rw (held, wire) in
    let (result, sent, err, _) =
      push-delivers seq seq 1 p e.alert.wire hh (omega arith) has_wire
        ((e.alert.wire, has_wire), tt) in
    ((push seq (pulling p seq 1) hh).0, rw (known, answers, top) refl, (result, sent, err))

-- The entry that a call returns is the one that it has recorded.
returned-recorded :
    (e f : Entry) (b : Built) (req : BuildRequest) (save : Option String) (seq : ℕ)
    → b.entry ≡ some e
    → ((save ≡ none)
          × (b.entry ≡ some f)
          × (b.announced ≡ seq ∷ [])
          × (b.watched ≡ (if req.watch then map outpoint_of req.funds else []))
        ⊎ ((err : String) × (save ≡ some err) × (b ≡ refused b.log)))
    → f ≡ e
unfolding refused
returned-recorded e f b req save seq returned (inl (_, recorded_f, _, _)) = cc
returned-recorded e f b req save seq returned (inr (err, _, is_refused)) =
    let bad : none ≡ some e = sym (ap (λ (b : Built). b.entry) is_refused) ∙ returned in cc

-- An alert that `BuildAlert` has returned, for a request without a number and a highest number below
-- 2^32 - 1: a push without a number, to a node whose peer then asks for the one alert that it lacks,
-- writes the announcement of this alert and then this alert, both with its bytes, reports exactly its
-- number as delivered, and no error.
pub build-push :
    (lib : Library) (req : BuildRequest) (now : ℕ) (save : Option String) (log : Log) (e : Entry)
    (inv : Inventory) (dials : String → Dialed) (name p : String) (n : Node) (hh : Host)
    → req.sequence ≡ 0
    → latest log < 4294967295
    → (build_alert lib req now save log).entry ≡ some e
    → hh.log ≡ (build_alert lib req now save log).log
    → node name inv ≡ some n
    → dials name ≡ pulling p (latest log + 1) 1
    → (r : Pushed) × ((push_alert inv dials name 0 (some hh)).0 ≡ pushed (latest log + 1) r)
      × IsDelivered e (latest log + 1) r
unfolding refused
build-push lib req now save log e inv dials name p n hh h small built same known answers =
    elim (build_alert-IsNext lib req now save log h small) [
      | inl (_, none_built) ↦
          let bad : some e ≡ none = sym built ∙ ap (λ (b : Built). b.entry) none_built in cc
      | inr (f, _, recorded_f, done) ↦
          let is_e : f ≡ e =
            returned-recorded e f (build_alert lib req now save log) req save (latest log + 1) built
              done in
          push_alert-latest inv dials name p n hh e (latest log + 1) known answers
            (rw same (recorded_f.1 ∙ ap some is_e)) (rw same recorded_f.2)
    ]
