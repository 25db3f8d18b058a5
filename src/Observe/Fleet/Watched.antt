-- ===== src/Observe/Fleet/Watched.antt =====
-- internal/observe/fleet.go: what `Refresh` does to the set of watched outputs, and what it shows of
-- an output that an SV node's blacklist covers.
use chaos_test.Common.{
  ℕ, ◌+◌, ◌≡◌, refl, ap, ◌∙◌, inl, inr, String, true, false, Option, none, some, List, [], ◌∷◌, map,
  if◌then◌else◌, Option-cases, Bool-cases,
}
use chaos_test.Common.Dict.{lookup, insert, has, lookup-insert_self, lookup-delete_self}
use chaos_test.Logs.Text.{codes}
use chaos_test.Alerts.{Fund}
use chaos_test.Svnode.{entry, some_freezes, frozen_at-entry}
use chaos_test.Observe.Snapshot.{Reply, failed, got, OutpointView, OutpointState}
use chaos_test.Observe.Fleet.{Fleet, state_of}
use chaos_test.Observe.Fleet.Watch.{
  key, watch, unwatch, outpoint, record_view, status_events, utxo_notice, Sight, sv_frozen, sv_view,
  refresh, refresh_sv, ask, no_view, Utxo, view_of,
}

-- The label of an output, if it is watched.
abbrev pub label_in : Option OutpointState → Option String
label_in none = none
label_in (some w) = some w.label

abbrev pub label_of : String → ℕ → Fleet → Option String
label_of txid vout f = label_in (outpoint txid vout f)

record_view-label :
    (k txid : String) (vout : ℕ) (v : OutpointView) (f : Fleet)
    → label_of txid vout (record_view k txid vout v f).1 ≡ label_of txid vout f
unfolding record_view outpoint
record_view-label k txid vout v f = elim (Option-cases (lookup (key txid vout) f.watched)) [
  | inl gone ↦ rw (record_view, gone) (rw gone)
  | inr (w, there) ↦
      let w' : OutpointState = record w { per_node = insert k v w.per_node } in
      rw (record_view, there) (ap label_in (lookup-insert_self (key txid vout) w' f.watched))
]

module _ (node txid : String) (vout : ℕ) (s : Sight) (f : Fleet) where
  refresh_sv-label :
      (r : Reply (Option ℕ))
      → s.tx_out ≡ r
      → label_of txid vout (refresh_sv node txid vout s f).fleet ≡ label_of txid vout f
  unfolding refresh_sv
  refresh_sv-label (failed err) e = rw (refresh_sv, e)
  refresh_sv-label (got out) e =
      rw (refresh_sv, e) (record_view-label node txid vout (sv_view node txid vout out s f) f)

  teranode-label :
      (r : Reply (List Utxo))
      → s.utxos ≡ r
      → has node f.sv ≡ false
      → has node f.asset ≡ true
      → label_of txid vout (ask node txid vout s f).fleet ≡ label_of txid vout f
  unfolding ask
  teranode-label (failed err) e no_sv tera = rw (ask, no_sv, tera, e)
  teranode-label (got rows) e no_sv tera =
      rw (ask, no_sv, tera, e)
        (record_view-label node txid vout
          (view_of vout (record no_view { status = "NOT_FOUND" }) rows) f)

  ask-label : label_of txid vout (ask node txid vout s f).fleet ≡ label_of txid vout f
  unfolding ask
  ask-label = elim (Bool-cases (has node f.sv)) [
    | inl sv ↦ rw (ask, sv) (refresh_sv-label s.tx_out refl)
    | inr no_sv ↦ elim (Bool-cases (has node f.asset)) [
      | inl tera ↦ teranode-label s.utxos refl no_sv tera
      | inr stranger ↦ rw (ask, no_sv, stranger)
    ]
  ]

watch-label :
    (txid : String) (vout : ℕ) (f : Fleet)
    → label_of txid vout (watch txid vout "" f)
      ≡ some (elim (label_of txid vout f) [ none ↦ "" | some l ↦ l ])
unfolding watch outpoint
watch-label txid vout f = elim (Option-cases (lookup (key txid vout) f.watched)) [
  | inl gone ↦
      let w : OutpointState = record { tx_id = txid; vout = vout; label = ""; per_node = [] } in
      rw (watch, gone) (ap label_in (lookup-insert_self (key txid vout) w f.watched))
  | inr (w, there) ↦ rw (watch, there) (rw there)
]

-- Whatever the nodes answer, and also where there is no such node: after `Refresh` the output is
-- watched, with the label that it had, and with none where it was not watched.
pub refresh-label :
    (node txid : String) (vout : ℕ) (s : Sight) (f : Fleet)
    → label_of txid vout (refresh node txid vout s f).fleet
      ≡ some (elim (label_of txid vout f) [ none ↦ "" | some l ↦ l ])
unfolding refresh
refresh-label node txid vout s f =
    ask-label node txid vout s (watch txid vout "" f) ∙ watch-label txid vout f

-- A poll that has read the watched outputs before `Unwatch` takes one of them away puts it back,
-- without its label.
pub refresh-unwatch :
    (node txid : String) (vout : ℕ) (s : Sight) (f : Fleet)
    → (label_of txid vout (unwatch txid vout f) ≡ none)
      × (label_of txid vout (refresh node txid vout s (unwatch txid vout f)).fleet ≡ some "")
unfolding unwatch outpoint
refresh-unwatch node txid vout s f =
    let gone : label_of txid vout (unwatch txid vout f) ≡ none =
      ap label_in (lookup-delete_self (key txid vout) f.watched) in
    (gone, refresh-label node txid vout s (unwatch txid vout f) ∙ rw gone)

-- On an SV node that reports the blacklist entries that it was sent for some funds, an unspent
-- output is shown as FROZEN exactly if one of these funds freezes it at the height behind the one
-- that the fleet has seen of the node, and as OK otherwise. A fund freezes its output from its start
-- on, and, where its stop is not 0, below its stop: a stop of 0 is no end, also with a start above
-- it, though the comment on the funds of an alert calls such an interval empty.
pub refresh_sv-frozen :
    (node txid : String) (vout sats : ℕ) (fs : List Fund) (s : Sight) (f : Fleet)
    → s.tx_out ≡ got (some sats)
    → s.blacklist ≡ got (map entry fs)
    → (refresh_sv node txid vout s f).view.status ≡ (
        if some_freezes (codes txid) vout ((state_of node f).height + 1) fs then "FROZEN" else "OK")
unfolding refresh_sv sv_view sv_frozen
refresh_sv-frozen node txid vout sats fs s f unspent listed =
    rw (refresh_sv, sv_view, sv_frozen, unspent, listed)
      (rw (frozen_at-entry fs (codes txid) vout ((state_of node f).height + 1)))

-- Where an SV node's blacklist cannot be read, an unspent output that it has frozen, and that is
-- shown so, is shown as OK, and the event says so.
pub refresh_sv-blind :
    (node txid : String) (vout sats : ℕ) (err : String) (s : Sight) (f : Fleet) (w : OutpointState)
    (old : OutpointView)
    → s.tx_out ≡ got (some sats)
    → s.blacklist ≡ failed err
    → outpoint txid vout f ≡ some w
    → lookup node w.per_node ≡ some old
    → old.status ≡ "FROZEN"
    → ((refresh_sv node txid vout s f).view.status ≡ "OK")
      × ((refresh_sv node txid vout s f).err ≡ none)
      × ((refresh_sv node txid vout s f).said ≡ utxo_notice node txid vout "OK" "FROZEN" ∷ [])
unfolding refresh_sv sv_view sv_frozen record_view outpoint status_events
refresh_sv-blind node txid vout sats err s f w old unspent blind there had frozen =
    let here : lookup (key txid vout) f.watched ≡ some w = there in
    rw (refresh_sv, sv_view, sv_frozen, unspent, blind)
      (refl, refl, rw (record_view, here) (rw (status_events, had) (rw frozen)))
