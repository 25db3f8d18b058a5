-- ===== src/Observe/Fleet.antt =====
-- internal/observe/fleet.go: the harness's view of the fleet. An instant, where the code reads the
-- clock, is an argument.
pub mod Nodes
pub mod World
pub mod Alerting
pub mod Shown
pub mod Tips
pub mod Watch
pub mod Statuses
pub mod Watched
pub mod Services
pub mod ArcadePolls
mod Examples
use Prim.Native.String.{len, slice, compare, ◌++◌ as concat}
use Prim.Native.Nat.{Ordering}
use chaos_test.Common.{
  ℕ, zero, ◌-◌, ℤ, pos, negsuc, String, Bool, true, false, not, ◌&&◌, Option, none, some, List, [],
  ◌∷◌, ◌++◌, ltb, str_eq, if◌then◌else◌,
}
use chaos_test.Common.Dict.{Dict, lookup, insert, has}
use chaos_test.Observe.Snapshot.{
  Reply, failed, got, NodeState, HubState, ServiceState, ArcadeDatahub, ArcadeState, OutpointView,
  OutpointState, no_state, no_arcade,
}
use chaos_test.Topology.{Node, Hub, Inventory, Service, UrlPair, is_sv}

-- The clients stand for themselves by the URL that they are made for; the snapshot's fields are
-- the fleet's own.
pub record Fleet : Type 0 where
  pub inv : Inventory
  pub asset : Dict String
  pub sv : Dict String
  pub sidecar : Dict String
  pub hub_client : Option String
  pub arcade_client : Option (String × String)
  pub network : String
  pub nodes : List NodeState
  pub hub : HubState
  pub arcade : ArcadeState
  pub services : List ServiceState
  pub watched : Dict OutpointState
  pub part_set : Dict (Dict Bool)
  pub updated_at : ℕ

-- `strings.TrimSuffix`
unfoldable pub trim_suffix : String → String → String
trim_suffix s suffix =
    if not (ltb (len s) (len suffix)) && str_eq (slice s (len s - len suffix) (len s)) suffix
    then slice s 0 (len s - len suffix)
    else s

unfoldable pub short : String → String
short h = if ltb 12 (len h) then concat (slice h 0 12) "…" else h

-- A node's first state, in the loop of `NewFleet`.
unfoldable pub first_state : Node → NodeState
unfolding is_sv
first_state n =
    let st : NodeState = record no_state {
      kind = "teranode";
      name = n.name;
      index = n.index;
      container = n.container;
      alert_seq = negsuc 0;
      alert_unprocessed = negsuc 0;
      alert_source = "node";
    } in
    if is_sv n
    then elim n.sidecar [
      | none ↦ record st { kind = "svnode"; alert_source = "sidecar" }
      | some sc ↦ record st {
        kind = "svnode";
        alert_source = "sidecar";
        sidecar_url = sc.host_api;
        sidecar_container = sc.container;
      }
    ]
    else record st { host_url = trim_suffix n.host_asset_url "/api/v1" }

pub add_node : Node → Fleet → Fleet
add_node n f =
    let g : Fleet =
      if is_sv n
      then record f {
        sv = insert n.name n.rpc_url f.sv;
        sidecar = elim n.sidecar [
          | none ↦ f.sidecar
          | some sc ↦ insert n.name sc.api_url f.sidecar
        ];
      }
      else record f { asset = insert n.name n.asset_url f.asset } in
    record g { nodes = f.nodes ++ first_state n ∷ [] }

pub add_nodes : List Node → Fleet → Fleet
add_nodes [] f = f
add_nodes (n ∷ ns) f = add_nodes ns (add_node n f)

-- `m[name]` of a map of pairs, the zero pair where the name is missing.
url_of : String → Dict UrlPair → UrlPair
url_of name urls = elim (lookup name urls) [
  | none ↦ record { url = ""; host_url = "" }
  | some p ↦ p
]

pub add_arcade : Service → Fleet → Fleet
unfolding url_of
add_arcade a f = if str_eq a.url "" then f else record f {
  arcade_client = some (a.url, (url_of "chaintracks" a.urls).url);
  arcade = record no_arcade {
    configured = true;
    url = a.url;
    chaintracks_url = (url_of "chaintracks" a.urls).url;
    host_url = a.host_url;
    host_health_url = (url_of "health" a.urls).host_url;
    host_events_url = (url_of "events" a.urls).host_url;
    host_chaintracks_url = (url_of "chaintracks" a.urls).host_url;
  };
}

abbrev pub bare : Inventory → Fleet
bare inv = record {
  inv = inv;
  asset = [];
  sv = [];
  sidecar = [];
  hub_client = elim inv.hub [ none ↦ none | some h ↦ some h.api_url ];
  arcade_client = none;
  network = inv.network;
  nodes = [];
  hub = record {
    reachable = false;
    sequence = 0;
    active_peers = pos 0;
    unprocessed = pos 0;
    error = "";
  };
  arcade = no_arcade;
  services = [];
  watched = [];
  part_set = [];
  updated_at = 0;
}

unfoldable pub new_fleet : Inventory → Fleet
unfolding add_node add_nodes add_arcade first_state
new_fleet inv =
    let f : Fleet = add_nodes inv.nodes (bare inv) in
    elim (lookup "arcade" inv.services) [ none ↦ f | some a ↦ add_arcade a f ]

-- `Fleet.Node`, the first state of the name.
unfoldable pub find_state : String → List NodeState → Option NodeState
find_state wanted [] = none
find_state wanted (n ∷ ns) =
    let later = find_state wanted ns in if str_eq n.name wanted then some n else later

-- `prev, _ := f.Node(name)`
unfoldable pub state_of : String → Fleet → NodeState
unfolding find_state
state_of name f = elim (find_state name f.nodes) [ none ↦ no_state | some n ↦ n ]

unfoldable pub set_partition : String → String → Bool → Fleet → Fleet
set_partition node plane on f =
    let planes : Dict Bool = elim (lookup node f.part_set) [ none ↦ [] | some m ↦ m ] in
    record f { part_set = insert node (insert plane on planes) f.part_set }

on_planes : Dict Bool → List String
on_planes [] = []
on_planes ((plane, on) ∷ rest) = let later = on_planes rest in if on then plane ∷ later else later

abbrev pub less : String → String → Bool
less a b = elim (compare a b) [ Ordering.lt ↦ true | _ ↦ false ]

place : String → List String → List String
place s [] = s ∷ []
place s (x ∷ xs) = let below = place s xs in if less x s then x ∷ below else s ∷ x ∷ xs

sorted : List String → List String
sorted [] = []
sorted (x ∷ xs) = place x (sorted xs)

unfoldable pub partitions : String → Fleet → List String
unfolding on_planes place sorted
partitions node f = sorted (elim (lookup node f.part_set) [ none ↦ [] | some m ↦ on_planes m ])
