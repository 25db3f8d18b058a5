-- ===== src/Observe/Fleet/Shown.antt =====
-- internal/observe/fleet.go: what the snapshot shows of one node's tip, and the `tip` events of one poll.
use chaos_test.Common.{
  ℕ, ◌≡◌, refl, ap, ◌∙◌, String, Bool, true, false, ◌&&◌, Option, none, some, List, [], ◌∷◌, arith,
  str_eq, eq_iff, if◌then◌else◌, keep,
}
use chaos_test.Topology.{Node}
use chaos_test.Wallet.Tracker.{Notice}
use chaos_test.Observe.Snapshot.{Reply, failed, got, NodeState, no_state}
use chaos_test.Observe.Fleet.{Fleet, find_state, state_of}
use chaos_test.Observe.Fleet.Nodes.{
  Header, Answers, begin_poll, polled_state, tip_events, tip_notice, store, store_all, poll_node,
  alert_answer, alert_notice, svnode_state, teranode_state, unreachable, with_header,
}
use chaos_test.Observe.Fleet.World.{polled_state-name}

unfoldable pub is_tip_of : String → Notice → Bool
is_tip_of name n = str_eq n.kind "tip" && str_eq n.node name

-- One event for each header that is not the one before it, a failure being no header.
unfoldable pub changes : String → String → List (Reply Header) → List Notice
changes name prev [] = []
changes name prev (failed err ∷ hs) = changes name prev hs
changes name prev (got h ∷ hs) =
    let rest = changes name h.hash hs in
    if str_eq h.hash prev then rest else tip_notice "tip" name prev h ∷ rest

-- What the snapshot shows: tip and height of the last header, and whether the last answer was one.
abbrev pub Shown : Type 0
Shown = String × ℕ × Bool

abbrev pub shown_by : NodeState → Shown
shown_by s = (s.tip, s.height, s.reachable)

unfoldable pub last_shown : Shown → List (Reply Header) → Shown
last_shown s [] = s
last_shown s (failed err ∷ hs) = last_shown (s.0, s.1, false) hs
last_shown s (got h ∷ hs) = last_shown (h.hash, h.height, true) hs

abbrev pub after_one : Shown → Reply Header → Shown
after_one s (failed err) = (s.0, s.1, false)
after_one s (got h) = (h.hash, h.height, true)

shown-polled :
    (node : Node) (f : Fleet) (a : Answers) (st : NodeState)
    → shown_by (polled_state node f a st) ≡ after_one (shown_by st) a.header
unfolding polled_state svnode_state teranode_state unreachable with_header
shown-polled node f a st = ground arith

-- What the snapshot shows of a name.
unfoldable pub shown_at : String → List NodeState → Option Shown
shown_at name [] = none
shown_at name (n ∷ ns) =
    let later = shown_at name ns in if str_eq n.name name then some (shown_by n) else later

shown_at-find :
    (name : String) (ns : List NodeState) {s : Shown}
    → shown_at name ns ≡ some s
    → shown_by (elim (find_state name ns) [ none ↦ no_state | some n ↦ n ]) ≡ s
unfolding shown_at find_state
shown_at-find name [] h = cc
shown_at-find name (n ∷ ns) {s} h = ground (arith, shown_at-find name ns {s = s})

shown_at-store_same :
    (name : String) (st : NodeState) (ns : List NodeState) {s : Shown}
    → st.name ≡ name
    → shown_at name ns ≡ some s
    → shown_at name (store_all name st ns) ≡ some (shown_by st)
unfolding shown_at store_all
shown_at-store_same name st [] e h = cc
shown_at-store_same name st (n ∷ ns) {s} e h =
    ground (arith, shown_at-store_same name st ns {s = s} e, (eq_iff st.name name).1 e)

shown_at-store_other :
    (name k : String) (st : NodeState) (ns : List NodeState)
    → st.name ≡ k
    → str_eq k name ≡ false
    → shown_at name (store_all k st ns) ≡ shown_at name ns
unfolding shown_at store_all
shown_at-store_other name k st [] e d = refl
shown_at-store_other name k st (n ∷ ns) e d =
    ground (arith, shown_at-store_other name k st ns e d, eq_iff n.name k, eq_iff st.name k)

-- A probe of an alert sequence shows no tip and tells of none.
pub shown_at-alert :
    (name k : String) (r : Reply ℕ) (ns : List NodeState)
    → shown_at name (alert_answer k r ns).1 ≡ shown_at name ns
unfolding shown_at alert_answer
shown_at-alert name k (failed err) [] = refl
shown_at-alert name k (got seq) [] = refl
shown_at-alert name k (failed err) (n ∷ ns) = ground (arith, shown_at-alert name k (failed err) ns)
shown_at-alert name k (got seq) (n ∷ ns) = ground (arith, shown_at-alert name k (got seq) ns)

pub keep-alert :
    (name k : String) (r : Reply ℕ) (ns : List NodeState)
    → keep (is_tip_of name) (alert_answer k r ns).0 ≡ []
unfolding alert_answer is_tip_of alert_notice
keep-alert name k (failed err) [] = refl
keep-alert name k (got seq) [] = refl
keep-alert name k (failed err) (n ∷ ns) = ground (arith, keep-alert name k (failed err) ns)
keep-alert name k (got seq) (n ∷ ns) = ground (arith, keep-alert name k (got seq) ns)

-- What one poll says of a name.
pub keep-tips :
    (name : String) (prev : NodeState) (r : Reply Header)
    → keep (is_tip_of name) (tip_events prev r)
      ≡ (if str_eq prev.name name then changes name prev.tip (r ∷ []) else [])
unfolding tip_events tip_notice changes is_tip_of
keep-tips name prev (failed err) = ground arith
keep-tips name prev (got h) = ground (arith, eq_iff prev.name name)

begin_poll-name : (now : ℕ) (node : Node) (f : Fleet) → (begin_poll now node f).name ≡ node.name
unfolding begin_poll
begin_poll-name now node f = refl

begin_poll-shown :
    (now : ℕ) (node : Node) (f : Fleet) {s : Shown}
    → shown_at node.name f.nodes ≡ some s
    → shown_by (begin_poll now node f) ≡ s
unfolding begin_poll state_of
begin_poll-shown now node f {s} h = shown_at-find node.name f.nodes h

pub last_shown_one : (s : Shown) (r : Reply Header) → last_shown s (r ∷ []) ≡ after_one s r
unfolding last_shown
last_shown_one s (failed err) = refl
last_shown_one s (got h) = refl

module _ (name : String) (began ended : ℕ) (node : Node) (a : Answers) (f : Fleet) where
  pub poll_same :
      {s : Shown}
      → node.name ≡ name
      → shown_at name f.nodes ≡ some s
      → (keep (is_tip_of name) (poll_node began ended node a f).0
          ≡ changes name s.0 (a.header ∷ []))
        × (shown_at name (poll_node began ended node a f).1.nodes ≡ some (after_one s a.header))
  unfolding poll_node store
  poll_same {s} same h =
      let st : NodeState = begin_poll began node f in
      let st' : NodeState = polled_state node f a st in
      let named : st.name ≡ name = begin_poll-name began node f ∙ same in
      let before : shown_by st ≡ s = begin_poll-shown began node f {s = s} (rw same h) in
      (
        keep-tips name st a.header
            ∙ rw ((eq_iff st.name name).1 named, ap (λ (s : Shown). s.0) before),
        ap (λ k. shown_at name (store_all k st' f.nodes)) same
            ∙ shown_at-store_same name st' f.nodes (polled_state-name node f a st ∙ named) h
            ∙ ap some (shown-polled node f a st ∙ ap (λ s. after_one s a.header) before),
      )

  pub poll_other :
      str_eq node.name name ≡ false
      → (keep (is_tip_of name) (poll_node began ended node a f).0 ≡ [])
        × (shown_at name (poll_node began ended node a f).1.nodes ≡ shown_at name f.nodes)
  unfolding poll_node store
  poll_other other =
      let st : NodeState = begin_poll began node f in
      let named : st.name ≡ node.name = begin_poll-name began node f in
      (
        keep-tips name st a.header ∙ rw (named, other),
        shown_at-store_other name node.name (polled_state node f a st) f.nodes
            (polled_state-name node f a st ∙ named) other,
      )
