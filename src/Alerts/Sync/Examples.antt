-- ===== src/Alerts/Sync/Examples.antt =====
-- bsv-regtest/alerts/host.go: a log of two alerts, a push of the second, and a peer that asks for
-- more than it is meant to have.
use chaos_test.Common.{
  ℕ, ◌≤◌, ◌≡◌, refl, true, String, none, some, List, [], ◌∷◌, arith, str_eq, if◌then◌else◌, All,
}
use chaos_test.Common.Dict.{lookup}
use chaos_test.Alerts.Log.{Entry, Log, get}
use chaos_test.Alerts.Sync.{
  want_latest, want_sequence, Stream, hangs_up, breaks, sends, Host, wire, watermark, set_watermark,
  serve, serve_loop, offered, Dialed, push, probe, fails, not_read,
}
use chaos_test.Alerts.Sync.Capped.{sequences}
use chaos_test.Alerts.Sync.Told.{Call, mark_is, serves_to, told, told-KeepsTo, KeepsTo}
use chaos_test.Alerts.Sync.Delivery.{Holds, announcement, alerts, pulling, push-delivers}

abbrev entry : ℕ → Entry
entry n = record {
  alert = record { sequence = n; kind = 1; timestamp = 7; wire = n ∷ n ∷ []; hash = "h" };
  note = "";
  created_at = 9;
}

abbrev two_alerts : Log
two_alerts = (1, entry 1) ∷ (2, entry 2) ∷ []

abbrev publisher : Host
publisher = record { log = two_alerts; watermarks = []; default_wm = 0 }

abbrev node_link : Stream → Dialed
node_link s = record { peer = some "n1"; opens = true; can_write = true; stream = s }

one_wire : wire 1 two_alerts ≡ some (1 ∷ 1 ∷ [])
unfolding wire get
one_wire = refl

two_wire : wire 2 two_alerts ≡ some (2 ∷ 2 ∷ [])
unfolding wire get
two_wire = refl

abbrev both_held : Holds two_alerts 1 2
both_held = ((1 ∷ 1 ∷ [], one_wire), ((2 ∷ 2 ∷ [], two_wire), tt))

push-delivers_example :
    ((push 2 (pulling "n1" 1 2) publisher).0.result
      ≡ some (record { peer_latest_before = 0; delivered = 1 ∷ 2 ∷ [] }))
    × ((push 2 (pulling "n1" 1 2) publisher).0.sent
        ≡ announcement 2 (2 ∷ 2 ∷ []) ∷ alerts two_alerts 1 2 both_held)
    × ((push 2 (pulling "n1" 1 2) publisher).0.err ≡ none)
    × ((push 2 (pulling "n1" 1 2) publisher).1 ≡ set_watermark "n1" 2 publisher)
push-delivers_example =
    push-delivers 2 1 2 "n1" (2 ∷ 2 ∷ []) publisher (omega arith) two_wire both_held

-- One peer may have both alerts, the others none.
abbrev limits : String → ℕ
limits p = if str_eq p "n1" then 2 else 0

abbrev curious : Stream
curious =
    sends (record { kind = want_latest; sequence = 0; body = [] }) true
      (sends (record { kind = want_sequence; sequence = 1; body = [] }) true hangs_up)

abbrev day : List Call
day = mark_is "n1" 2 ∷ serves_to "n1" curious ∷ serves_to "n2" curious ∷ []

none_marked : (p : String) → watermark p publisher ≤ limits p
unfolding watermark lookup
none_marked p = omega arith

told-KeepsTo_example : All (KeepsTo limits) (told day publisher)
told-KeepsTo_example = told-KeepsTo limits day publisher none_marked (omega arith, (tt, (tt, tt)))

-- The second peer learns the mark, which is 0, and is refused the alert.
refused : sequences (serve "n2" curious publisher) ≡ 0 ∷ []
unfolding serve serve_loop watermark lookup wire get offered
refused = refl

-- A dead connection is closed.
dead : probe (node_link (breaks "timeout")) ≡ (fails (not_read "timeout"), true)
unfolding probe
dead = refl
