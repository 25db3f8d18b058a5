-- ===== src/Observe/Fleet/Nodes.antt =====
-- internal/observe/fleet.go: the polls of one node, `pollNode` and `pollSVNode`, and the probe of
-- its alert sequence. Each poll reads a node's state, asks the node, and writes the whole state back.
use Prim.Native.String.{◌++◌ as concat}
use chaos_test.Common.{
  ℕ, ℤ, pos, String, Bool, true, false, not, List, [], ◌∷◌, ◌++◌, ltb, str_eq, if◌then◌else◌,
  length, take, keep,
}
use chaos_test.Common.Int.{eqb_ℤ}
use chaos_test.Common.Dict.{has}
use chaos_test.Common.Text.{itoa}
use chaos_test.Topology.{Node}
use chaos_test.Wallet.Tracker.{Notice}
use chaos_test.Observe.Bus.{text, num, int}
use chaos_test.Observe.Snapshot.{Reply, failed, got, NodeState}
use chaos_test.Observe.Fleet.{Fleet, state_of, partitions, short}

pub record Header : Type 0 where
  pub hash : String
  pub height : ℕ

-- What the calls to one node return; of `getpeerinfo` the number of rows, and of the sidecar's
-- health the unprocessed alerts.
pub record Answers : Type 0 where
  pub header : Reply Header
  pub fsm : Reply String
  pub mempool : Reply (List String)
  pub build_info : Reply (String × String)
  pub peers : Reply ℕ
  pub sub_version : Reply String
  pub health : Reply ℤ

-- The state of before, with what the poll knows without asking.
unfoldable pub begin_poll : ℕ → Node → Fleet → NodeState
begin_poll now node f = record (state_of node.name f) {
  name = node.name;
  index = node.index;
  container = node.container;
  updated_at = now;
  partitions = partitions node.name f;
}

unfoldable pub tip_notice : String → String → String → Header → Notice
tip_notice kind node prev hdr = record {
  kind = kind;
  node = node;
  message = concat node (concat " tip → " (concat (itoa hdr.height) (concat " " (short hdr.hash))));
  attrs = ("height", num hdr.height) ∷ ("hash", text hdr.hash) ∷ ("prev", text prev) ∷ [];
}

abbrev pub filler : String
filler = "ffffffffffffffffffffffffffffffffffffffffffffffffffffffffffffffff"

with_mempool : List String → NodeState → NodeState
with_mempool ids st = record st {
  mempool_count = length ids;
  mempool = if ltb 20 (length ids) then take 20 ids else ids;
}

with_fsm : Reply String → NodeState → NodeState
with_fsm (failed err) st = st
with_fsm (got fsm) st = record st { fsm = fsm }

clean_mempool : Reply (List String) → NodeState → NodeState
clean_mempool (failed err) st = st
clean_mempool (got ids) st = with_mempool (keep (λ id. not (str_eq id filler)) ids) st

raw_mempool : Reply (List String) → NodeState → NodeState
raw_mempool (failed err) st = st
raw_mempool (got ids) st = with_mempool ids st

with_build : Reply (String × String) → NodeState → NodeState
with_build (failed err) st = st
with_build (got (v, commit)) st =
    if str_eq st.version "" then record st { version = v; commit = commit } else st

with_peers : Reply ℕ → NodeState → NodeState
with_peers (failed err) st = st
with_peers (got n) st = record st { peers = n }

with_version : Reply String → NodeState → NodeState
with_version (failed err) st = st
with_version (got v) st = if str_eq st.version "" then record st { version = v } else st

with_health : Bool → Reply ℤ → NodeState → NodeState
with_health false h st = st
with_health true (failed err) st = st
with_health true (got n) st = record st { alert_unprocessed = n }

unfoldable pub unreachable : String → NodeState → NodeState
unreachable err st = record st { reachable = false; error = err }

unfoldable pub with_header : Header → NodeState → NodeState
with_header hdr st = record st { reachable = true; error = ""; height = hdr.height; tip = hdr.hash }

-- The event of a poll: the header that came is not the one of before.
unfoldable pub tip_events : NodeState → Reply Header → List Notice
tip_events prev (failed err) = []
tip_events prev (got hdr) =
    if str_eq hdr.hash prev.tip then [] else tip_notice "tip" prev.name prev.tip hdr ∷ []

unfoldable pub teranode_state : Answers → NodeState → NodeState
unfolding with_fsm clean_mempool with_build with_mempool
teranode_state a st = elim a.header [
  | failed err ↦ unreachable err st
  | got hdr ↦
      with_build a.build_info (clean_mempool a.mempool (with_fsm a.fsm (with_header hdr st)))
]

unfoldable pub svnode_state : Bool → Answers → NodeState → NodeState
unfolding raw_mempool with_peers with_version with_health with_mempool
svnode_state sidecar a st = with_health sidecar a.health (elim a.header [
  | failed err ↦ unreachable err st
  | got hdr ↦
      with_version a.sub_version (with_peers a.peers (raw_mempool a.mempool (with_header hdr st)))
])

-- What a poll writes, by the kind of the node.
unfoldable pub polled_state : Node → Fleet → Answers → NodeState → NodeState
polled_state node f a st =
    if has node.name f.sv then svnode_state (has node.name f.sidecar) a st else teranode_state a st

-- The loop under the lock: the alert fields are those of the moment.
unfoldable pub store_all : String → NodeState → List NodeState → List NodeState
store_all name st [] = []
store_all name st (n ∷ ns) =
    (if str_eq n.name name
      then record st { alert_seq = n.alert_seq; alert_reachable = n.alert_reachable }
      else n)
    ∷ store_all name st ns

unfoldable pub store : ℕ → String → NodeState → Fleet → Fleet
unfolding store_all
store now name st f = record f { nodes = store_all name st f.nodes; updated_at = now }

-- A poll that nothing interrupts.
unfoldable pub poll_node : ℕ → ℕ → Node → Answers → Fleet → List Notice × Fleet
poll_node began ended node a f =
    let st : NodeState = begin_poll began node f in
    (tip_events st a.header, store ended node.name (polled_state node f a st) f)

unfoldable pub alert_notice : NodeState → ℕ → Notice
alert_notice st seq = record {
  kind = "alert_seq";
  node = st.name;
  message = concat st.name (concat " alert sequence → " (itoa seq));
  attrs = ("sequence", num seq) ∷ ("prev", int st.alert_seq) ∷ [];
}

-- The part of `pollAlertSeqs` under the lock, for the answer of one node: an error ends it at the
-- first state of that name.
unfoldable pub alert_answer : String → Reply ℕ → List NodeState → List Notice × List NodeState
alert_answer name r [] = ([], [])
alert_answer name (failed err) (n ∷ ns) =
    let rest = alert_answer name (failed err) ns in
    if str_eq n.name name
    then ([], record n { alert_reachable = false } ∷ ns)
    else (rest.0, n ∷ rest.1)
alert_answer name (got seq) (n ∷ ns) =
    let rest = alert_answer name (got seq) ns in
    if str_eq n.name name
    then (
      (if eqb_ℤ (pos seq) n.alert_seq then [] else alert_notice n seq ∷ []) ++ rest.0,
      record n { alert_reachable = true; alert_seq = pos seq } ∷ rest.1,
    )
    else (rest.0, n ∷ rest.1)

unfoldable pub probe_alert : String → Reply ℕ → Fleet → List Notice × Fleet
unfolding alert_answer
probe_alert name r f =
    let (said, nodes) = alert_answer name r f.nodes in (said, record f { nodes = nodes })
