-- ===== src/Observe/Fleet/World.antt =====
-- internal/observe/fleet.go under concurrency: the polls of nodes, which read a state and write it
-- back later, the probes of alert sequences, and the partitions that a caller records.
use chaos_test.Common.{
  ℕ, ℤ, pos, negsuc, ◌≡◌, refl, sym, ◌∙◌, inl, inr, String, Bool, true, false, List, [], ◌∷◌, ◌++◌,
  map, arith, str_eq, eq_iff, if◌then◌else◌, All, Bool-cases,
}
use chaos_test.Common.Dict.{Distinct, contains, has}
use chaos_test.Topology.{Node, Inventory}
use chaos_test.Wallet.Tracker.{Notice}
use chaos_test.Observe.Snapshot.{Reply, failed, got, NodeState}
use chaos_test.Observe.Fleet.{Fleet, new_fleet, set_partition}
use chaos_test.Observe.Fleet.Nodes.{
  Answers, begin_poll, polled_state, tip_events, store, store_all, probe_alert, alert_answer,
  svnode_state, teranode_state, unreachable, with_header,
}

-- A poll between its reading and its writing.
pub record Poll : Type 0 where
  pub node : Node
  pub seen : NodeState

-- `answers` holds what the probes of alert sequences returned, the newest first.
pub record World : Type 0 where
  pub fleet : Fleet
  pub held : List Poll
  pub answers : List (String × Reply ℕ)
  pub said : List Notice

pub data Step (w v : World) : Type 0 where
  reads :
      (now : ℕ) (node : Node)
      → v ≡ record w {
        held = w.held ++ record { node = node; seen = begin_poll now node w.fleet } ∷ [];
      }
      → Step w v
  writes :
      (before : List Poll) (p : Poll) (after : List Poll) (a : Answers) (now : ℕ)
      → w.held ≡ before ++ p ∷ after
      → v ≡ record w {
        fleet = store now p.node.name (polled_state p.node w.fleet a p.seen) w.fleet;
        held = before ++ after;
        said = w.said ++ tip_events p.seen a.header;
      }
      → Step w v
  probes :
      (name : String) (r : Reply ℕ)
      → v ≡ record w {
        fleet = (probe_alert name r w.fleet).1;
        answers = (name, r) ∷ w.answers;
        said = w.said ++ (probe_alert name r w.fleet).0;
      }
      → Step w v
  cuts :
      (node plane : String) (on : Bool)
      → v ≡ record w { fleet = set_partition node plane on w.fleet }
      → Step w v

pub data Reach (inv : Inventory) : World → Type 0 where
  here : Reach inv (record { fleet = new_fleet inv; held = []; answers = []; said = [] })
  next : {w v : World} → Reach inv w → Step w v → Reach inv v

abbrev pub names : List NodeState → List String
names ns = map (λ (n : NodeState). n.name) ns

-- What the probes of a name have found out: the last sequence, and whether the last one answered.
unfoldable pub told : List (String × Reply ℕ) → String → ℤ × Bool
told [] name = (negsuc 0, false)
told ((k, r) ∷ older) name =
    let rest = told older name in
    if str_eq k name
    then elim r [ failed err ↦ (rest.0, false) | got seq ↦ (pos seq, true) ]
    else rest

abbrev pub IsTold : List (String × Reply ℕ) → NodeState → Type 0
IsTold log n = (n.alert_seq ≡ (told log n.name).0) × (n.alert_reachable ≡ (told log n.name).1)

abbrev pub IsNamed : Poll → Type 0
IsNamed p = p.seen.name ≡ p.node.name

-- A poll does not rename a state.
teranode_state-name : (a : Answers) (st : NodeState) → (teranode_state a st).name ≡ st.name
unfolding teranode_state unreachable with_header
teranode_state-name a st = ground arith

svnode_state-name : (b : Bool) (a : Answers) (st : NodeState) → (svnode_state b a st).name ≡ st.name
unfolding svnode_state unreachable with_header
svnode_state-name b a st = ground arith

pub polled_state-name :
    (node : Node) (f : Fleet) (a : Answers) (st : NodeState)
    → (polled_state node f a st).name ≡ st.name
unfolding polled_state
polled_state-name node f a st =
    ground (arith, teranode_state-name a st, svnode_state-name (has node.name f.sidecar) a st)

pub store-names :
    (name : String) (st : NodeState) (ns : List NodeState)
    → st.name ≡ name
    → names (store_all name st ns) ≡ names ns
unfolding store_all
store-names name st [] h = refl
store-names name st (n ∷ ns) h = ground (arith, store-names name st ns h, eq_iff n.name name)

pub store-IsTold :
    (log : List (String × Reply ℕ)) (name : String) (st : NodeState) (ns : List NodeState)
    → st.name ≡ name
    → All (IsTold log) ns
    → All (IsTold log) (store_all name st ns)
unfolding store_all
store-IsTold log name st [] h all = tt
store-IsTold log name st (n ∷ ns) h all =
    let rest = store-IsTold log name st ns h all.1 in
    elim (Bool-cases (str_eq n.name name)) [
      | inl same ↦
          let e : st.name ≡ n.name = h ∙ sym ((eq_iff n.name name).0 same) in
          rw same (rw e all.0, rest)
      | inr other ↦ rw other (all.0, rest)
    ]

pub alert-names :
    (name : String) (r : Reply ℕ) (ns : List NodeState)
    → names (alert_answer name r ns).1 ≡ names ns
unfolding alert_answer
alert-names name (failed err) [] = refl
alert-names name (failed err) (n ∷ ns) = ground (arith, alert-names name (failed err) ns)
alert-names name (got seq) [] = refl
alert-names name (got seq) (n ∷ ns) = ground (arith, alert-names name (got seq) ns)

-- A probe of another name changes nothing that is told.
others-IsTold :
    (log : List (String × Reply ℕ)) (name : String) (r : Reply ℕ) (ns : List NodeState)
    → contains (names ns) name ≡ false
    → All (IsTold log) ns
    → All (IsTold ((name, r) ∷ log)) ns
unfolding contains told
others-IsTold log name r [] d all = tt
others-IsTold log name r (n ∷ ns) d all =
    let other : str_eq name n.name ≡ false =
      ground (arith, eq_iff name n.name, eq_iff n.name name) in
    (rw other all.0, others-IsTold log name r ns (ground arith) all.1)

pub alert-IsTold :
    (log : List (String × Reply ℕ)) (name : String) (r : Reply ℕ) (ns : List NodeState)
    → Distinct (names ns)
    → All (IsTold log) ns
    → All (IsTold ((name, r) ∷ log)) (alert_answer name r ns).1
unfolding alert_answer told
alert-IsTold log name (failed err) [] d all = tt
alert-IsTold log name (got seq) [] d all = tt
alert-IsTold log name (failed err) (n ∷ ns) d all = elim (Bool-cases (str_eq n.name name)) [
  | inl same ↦
      let e : n.name ≡ name = (eq_iff n.name name).0 same in
      let self : str_eq name n.name ≡ true = (eq_iff name n.name).1 (sym e) in
      rw (same, self) ((all.0.0, refl), others-IsTold log name (failed err) ns (rw (← e) d.0) all.1)
  | inr other ↦
      let far : str_eq name n.name ≡ false =
        ground (arith, eq_iff name n.name, eq_iff n.name name) in
      rw (other, far) (all.0, alert-IsTold log name (failed err) ns d.1 all.1)
]
alert-IsTold log name (got seq) (n ∷ ns) d all = elim (Bool-cases (str_eq n.name name)) [
  | inl same ↦
      let self : str_eq name n.name ≡ true =
        (eq_iff name n.name).1 (sym ((eq_iff n.name name).0 same)) in
      rw (same, self) ((refl, refl), alert-IsTold log name (got seq) ns d.1 all.1)
  | inr other ↦
      let far : str_eq name n.name ≡ false =
        ground (arith, eq_iff name n.name, eq_iff n.name name) in
      rw (other, far) (all.0, alert-IsTold log name (got seq) ns d.1 all.1)
]
