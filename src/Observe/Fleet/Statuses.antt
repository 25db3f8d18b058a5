-- ===== src/Observe/Fleet/Statuses.antt =====
-- internal/observe/fleet.go: the `utxo` events of a watched output, and what a poll of it does to the
-- set of watched outputs.
use Prim.Native.String.{◌++◌ as concat}
use chaos_test.Common.{
  ℕ, ◌≡◌, refl, ap, ◌∙◌, inl, inr, String, Bool, Option, none, some, List, [], ◌∷◌, ◌++◌, arith,
  str_eq, eq_iff, if◌then◌else◌, keep, keep-append, Bool-cases,
}
use chaos_test.Common.Dict.{lookup, insert, lookup-insert, lookup-insert_self}
use chaos_test.Wallet.Tracker.{Notice}
use chaos_test.Observe.Snapshot.{OutpointView, OutpointState}
use chaos_test.Common.Text.{itoa}
use chaos_test.Observe.Bus.{text, num}
use chaos_test.Observe.Fleet.{Fleet, short}
use chaos_test.Observe.Fleet.Watch.{key, outpoint, record_view, status_events, utxo_notice}

-- Reports on one output, each by a node.
abbrev pub Report : Type 0
Report = String × OutpointView

unfoldable pub take_reports : String → ℕ → List Report → Fleet → List Notice × Fleet
take_reports txid vout [] f = ([], f)
take_reports txid vout ((node, v) ∷ rs) f =
    let one = record_view node txid vout v f in
    let rest = take_reports txid vout rs one.1 in (one.0 ++ rest.0, rest.1)

-- The event of a status that a node sees, with the one that it saw before.
abbrev pub sighting : String → String → ℕ → String → String → Notice
sighting node txid vout status prev = record {
  kind = "utxo";
  node = node;
  message = concat node (
      concat " sees "
        (concat (short txid) (concat ":" (concat (itoa vout) (concat " as " status)))));
  attrs =
      ("txid", text txid) ∷ ("vout", num vout) ∷ ("status", text status) ∷ ("prev", text prev) ∷ [];
}

-- The status of a node's last report, where there is one.
abbrev pub status_in : Option OutpointView → Option String
status_in none = none
status_in (some v) = some v.status

-- Of one node's statuses: an event for the first one, where there was none before, and one for each
-- that is not the one before.
pub events_from : String → String → ℕ → Option String → List String → List Notice
events_from node txid vout old [] = []
events_from node txid vout none (status ∷ rest) =
    sighting node txid vout status "" ∷ events_from node txid vout (some status) rest
events_from node txid vout (some prev) (status ∷ rest) =
    let later = events_from node txid vout (some status) rest in
    if str_eq prev status then later else sighting node txid vout status prev ∷ later

pub statuses_of : String → List Report → List String
statuses_of node [] = []
statuses_of node ((k, v) ∷ rs) =
    let rest = statuses_of node rs in if str_eq k node then v.status ∷ rest else rest

-- One report's part of these events.
status_events-from :
    (node txid : String) (vout : ℕ) (old : Option OutpointView) (v : OutpointView)
    (rest : List String)
    → status_events node txid vout old v ++ events_from node txid vout (some v.status) rest
      ≡ events_from node txid vout (status_in old) (v.status ∷ rest)
unfolding status_events utxo_notice events_from
status_events-from node txid vout none v rest = refl
status_events-from node txid vout (some o) v rest = ground arith

unfoldable pub last_report : String → Option OutpointView → List Report → Option OutpointView
last_report node old [] = old
last_report node old ((k, v) ∷ rs) = last_report node (if str_eq k node then some v else old) rs

abbrev pub by_node : String → Notice → Bool
by_node node n = str_eq n.node node

keep-status_events :
    (node k txid : String) (vout : ℕ) (old : Option OutpointView) (v : OutpointView)
    → keep (by_node node) (status_events k txid vout old v)
      ≡ (if str_eq k node then status_events k txid vout old v else [])
unfolding status_events utxo_notice
keep-status_events node k txid vout none v = ground arith
keep-status_events node k txid vout (some old) v = ground arith

-- One report: the view is the node's, the event is of the node, the rest is as it was.
record_view-watched :
    (k txid : String) (vout : ℕ) (v : OutpointView) (f : Fleet) {w : OutpointState}
    → outpoint txid vout f ≡ some w
    → (record_view k txid vout v f).0 ≡ status_events k txid vout (lookup k w.per_node) v
unfolding record_view outpoint
record_view-watched k txid vout v f {w} h =
    let there : lookup (key txid vout) f.watched ≡ some w = h in rw (record_view, there)

record_view-outpoint :
    (k txid : String) (vout : ℕ) (v : OutpointView) (f : Fleet) {w : OutpointState}
    → outpoint txid vout f ≡ some w
    → outpoint txid vout (record_view k txid vout v f).1
      ≡ some (record w { per_node = insert k v w.per_node })
unfolding record_view outpoint
record_view-outpoint k txid vout v f {w} h =
    let there : lookup (key txid vout) f.watched ≡ some w = h in
    rw (record_view, there)
      (lookup-insert_self (key txid vout) (record w { per_node = insert k v w.per_node }) f.watched)

-- After any reports of any nodes on a watched output, the events of one node are exactly one for
-- its first report, where the output had no view of it before, and one for each report whose status
-- is not that of its report before, with the two statuses; and the output shows its last report.
pub take_reports-changes :
    (node txid : String) (vout : ℕ) (rs : List Report) (f : Fleet) (w : OutpointState)
    → outpoint txid vout f ≡ some w
    → (keep (by_node node) (take_reports txid vout rs f).0
        ≡ events_from node txid vout (status_in (lookup node w.per_node)) (statuses_of node rs))
      × ((w' : OutpointState) × (outpoint txid vout (take_reports txid vout rs f).1 ≡ some w')
          × (lookup node w'.per_node ≡ last_report node (lookup node w.per_node) rs))
unfolding take_reports statuses_of last_report events_from
take_reports-changes node txid vout [] f w h = (refl, (w, h, refl))
take_reports-changes node txid vout ((k, v) ∷ rs) f w h =
    let w' : OutpointState = record w { per_node = insert k v w.per_node } in
    let f' : Fleet = (record_view k txid vout v f).1 in
    let rest =
      take_reports-changes node txid vout rs f' w' (record_view-outpoint k txid vout v f h) in
    let said : keep (by_node node) (record_view k txid vout v f).0
        ≡ (if str_eq k node then status_events k txid vout (lookup k w.per_node) v else []) =
      ap (keep (by_node node)) (record_view-watched k txid vout v f h)
      ∙ keep-status_events node k txid vout (lookup k w.per_node) v in
    let both =
      keep-append (by_node node) (record_view k txid vout v f).0 (take_reports txid vout rs f').0 in
    let now : lookup node w'.per_node ≡ (if str_eq k node then some v else lookup node w.per_node) =
      lookup-insert k node v w.per_node in
    elim (Bool-cases (str_eq k node)) [
      | inl own ↦
          let same : k ≡ node = (eq_iff k node).0 own in
          let kept : lookup node w'.per_node ≡ some v = now ∙ rw own in
          let first : keep (by_node node) (record_view k txid vout v f).0
              ≡ status_events node txid vout (lookup node w.per_node) v =
            said
            ∙ rw own
                (ap (λ (n : String). status_events n txid vout (lookup n w.per_node) v) same) in
          rw own (
            both
                ∙ rw first (
                    ap (◌++◌ (status_events node txid vout (lookup node w.per_node) v))
                      (rest.0 ∙ rw kept)
                    ∙ status_events-from node txid vout (lookup node w.per_node) v
                        (statuses_of node rs)),
            (rest.1.0, rest.1.1, rest.1.2 ∙ rw kept),
          )
      | inr other ↦
          let kept : lookup node w'.per_node ≡ lookup node w.per_node = now ∙ rw other in
          rw other
            (both ∙ rw (said, other) (rest.0 ∙ rw kept), (rest.1.0, rest.1.1, rest.1.2 ∙ rw kept))
    ]
