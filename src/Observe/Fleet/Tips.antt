-- ===== src/Observe/Fleet/Tips.antt =====
-- internal/observe/fleet.go: the `tip` events that polls of nodes publish, and the tip that the
-- snapshot shows, where the polls of one node follow one another as `pollNodes` lets them.
use chaos_test.Common.{
  ℕ, ◌≡◌, refl, sym, ap, ◌∙◌, inl, inr, String, true, false, some, List, [], ◌∷◌, ◌++◌, arith,
  str_eq, eq_iff, if◌then◌else◌, keep, keep-append, Bool-cases,
}
use chaos_test.Topology.{Node}
use chaos_test.Wallet.Tracker.{Notice}
use chaos_test.Observe.Snapshot.{Reply, failed, got}
use chaos_test.Observe.Fleet.{Fleet}
use chaos_test.Observe.Fleet.Nodes.{Header, Answers, poll_node, probe_alert}
use chaos_test.Observe.Fleet.Shown.{
  is_tip_of, changes, Shown, last_shown, shown_at, shown_at-alert, keep-alert, poll_same,
  poll_other, last_shown_one,
}

-- A poll of one node, or a probe of an alert sequence.
pub data Turn : Type 0 where
  polls : ℕ → ℕ → Node → Answers → Turn
  probes : String → Reply ℕ → Turn

unfoldable pub take_turn : Turn → Fleet → List Notice × Fleet
take_turn (polls began ended node a) f = poll_node began ended node a f
take_turn (probes name r) f = probe_alert name r f

unfoldable pub take_turns : List Turn → Fleet → List Notice × Fleet
take_turns [] f = ([], f)
take_turns (t ∷ ts) f =
    let one = take_turn t f in let rest = take_turns ts one.1 in (one.0 ++ rest.0, rest.1)

-- The headers that polls of a name returned.
unfoldable pub headers : String → List Turn → List (Reply Header)
headers name [] = []
headers name (probes k r ∷ ts) = headers name ts
headers name (polls began ended node a ∷ ts) =
    let rest = headers name ts in if str_eq node.name name then a.header ∷ rest else rest

-- What one turn does: with the headers of a name that it got, one at most.
turn-shown :
    (name : String) (t : Turn) (f : Fleet) {s : Shown}
    → shown_at name f.nodes ≡ some s
    → let hs = headers name (t ∷ []) in
      (keep (is_tip_of name) (take_turn t f).0 ≡ changes name s.0 hs)
      × (shown_at name (take_turn t f).1.nodes ≡ some (last_shown s hs))
unfolding take_turn headers changes last_shown probe_alert
turn-shown name (probes k r) f h =
    (keep-alert name k r f.nodes, shown_at-alert name k r f.nodes ∙ h)
turn-shown name (polls began ended node a) f {s} h = elim (Bool-cases (str_eq node.name name)) [
  | inl same ↦
      let one = poll_same name began ended node a f {s = s} ((eq_iff node.name name).0 same) h in
      rw same (one.0, one.1 ∙ ap some (sym (last_shown_one s a.header)))
  | inr other ↦
      let none_new = poll_other name began ended node a f other in
      rw other (none_new.0, none_new.1 ∙ h)
]

headers-cons :
    (name : String) (t : Turn) (ts : List Turn)
    → headers name (t ∷ ts) ≡ headers name (t ∷ []) ++ headers name ts
unfolding headers
headers-cons name (probes k r) ts = refl
headers-cons name (polls began ended node a) ts = ground arith

changes-append :
    (name : String) (s : Shown) (hs hs' : List (Reply Header))
    → changes name s.0 (hs ++ hs') ≡ changes name s.0 hs ++ changes name (last_shown s hs).0 hs'
unfolding changes last_shown
changes-append name s [] hs' = refl
changes-append name s (failed err ∷ hs) hs' = changes-append name (s.0, s.1, false) hs hs'
changes-append name s (got h ∷ hs) hs' =
    ground (arith, changes-append name (h.hash, h.height, true) hs hs')

last_shown-append :
    (s : Shown) (hs hs' : List (Reply Header))
    → last_shown s (hs ++ hs') ≡ last_shown (last_shown s hs) hs'
unfolding last_shown
last_shown-append s [] hs' = refl
last_shown-append s (failed err ∷ hs) hs' = last_shown-append (s.0, s.1, false) hs hs'
last_shown-append s (got h ∷ hs) hs' = last_shown-append (h.hash, h.height, true) hs hs'

-- After any polls and probes of any nodes, one after another, the `tip` events of a node that the
-- snapshot has are exactly one for each header of its polls that is not the one before it, in their
-- order, the first being compared with the tip that was shown before them and a failed poll being
-- passed over; and the snapshot shows tip and height of its last header, or what it showed before
-- where there is none, as reachable exactly if its last poll got one.
pub take_turns-tips :
    (name : String) (ts : List Turn) (f : Fleet) {s : Shown}
    → shown_at name f.nodes ≡ some s
    → (keep (is_tip_of name) (take_turns ts f).0 ≡ changes name s.0 (headers name ts))
      × (shown_at name (take_turns ts f).1.nodes ≡ some (last_shown s (headers name ts)))
unfolding take_turns changes headers last_shown
take_turns-tips name [] f h = (refl, h)
take_turns-tips name (t ∷ ts) f {s} h =
    let one = turn-shown name t f {s = s} h in
    let rest = take_turns-tips name ts (take_turn t f).1 one.1 in
    let hs = headers name (t ∷ []) in
    (
      keep-append (is_tip_of name) (take_turn t f).0 (take_turns ts (take_turn t f).1).0
          ∙ rw (one.0, rest.0, headers-cons name t ts)
              (sym (changes-append name s hs (headers name ts))),
      rest.1
          ∙ ap some (
              sym (last_shown-append s hs (headers name ts))
              ∙ ap (last_shown s) (sym (headers-cons name t ts))),
    )
