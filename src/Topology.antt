-- ===== src/Topology.antt =====
-- bsv-regtest/topology/inventory.go: the inventory of a generated network.
use Prim.Native.String.{◌++◌ as concat}
use chaos_test.Common.{
  ℕ, String, Bool, not, ◌&&◌, ◌||◌, Option, none, some, List, [], ◌∷◌, map, ◌==◌, str_eq,
  if◌then◌else◌, keep,
}
use chaos_test.Common.Dict.{Dict}
use chaos_test.Common.Text.{itoa}

pub record Sidecar : Type 0 where
  pub name : String
  pub container : String
  pub ctl_ip : String
  pub api_url : String
  pub host_api : String

pub record Node : Type 0 where
  pub kind : String
  pub name : String
  pub index : ℕ
  pub chaos_ip : String
  pub alert_ip : String
  pub ctl_ip : String
  pub alert_addr : String
  pub rpc_url : String
  pub asset_url : String
  pub health_url : String
  pub host_rpc_url : String
  pub host_asset_url : String
  pub host_base : ℕ
  pub container : String
  pub sidecar : Option Sidecar

pub record Hub : Type 0 where
  pub api_url : String
  pub host_api : String

pub record UrlPair : Type 0 where
  pub url : String
  pub host_url : String

pub record Service : Type 0 where
  pub url : String
  pub host_url : String
  pub urls : Dict UrlPair

-- The names by which the container runtime knows the networks of the planes.
pub record Networks : Type 0 where
  pub chaos_name : String
  pub alert_name : String

pub record Inventory : Type 0 where
  pub network : String
  pub networks : Networks
  pub nodes : List Node
  pub hub : Option Hub
  pub services : Dict Service

unfoldable pub is_sv : Node → Bool
is_sv n = str_eq n.kind "svnode"

unfoldable pub teranodes : Inventory → List Node
teranodes inv = keep (λ (n : Node). not (is_sv n)) inv.nodes

unfoldable pub sv_nodes : Inventory → List Node
sv_nodes inv = keep is_sv inv.nodes

unfoldable pub answers_to : String → Node → Bool
answers_to wanted n = str_eq n.name wanted || (not (is_sv n) && str_eq (itoa n.index) wanted)

find_node : String → List Node → Option Node
find_node wanted [] = none
find_node wanted (n ∷ ns) =
    let later = find_node wanted ns in if answers_to wanted n then some n else later

-- `Inventory.Node`
unfoldable pub node : String → Inventory → Option Node
unfolding find_node
node wanted inv = find_node wanted inv.nodes

-- The host's address where one is published.
unfoldable pub or_host : String → String → String
or_host host url = if str_eq host "" then url else host

host_sidecar : Option Sidecar → Option Sidecar
host_sidecar none = none
host_sidecar (some sc) = some (record sc { api_url = or_host sc.host_api sc.api_url })

unfoldable pub host_node : Node → Node
unfolding host_sidecar
host_node n = record n {
  rpc_url = or_host n.host_rpc_url n.rpc_url;
  asset_url = or_host n.host_asset_url n.asset_url;
  health_url =
      if n.host_base == 0
      then n.health_url
      else concat "http://localhost:" (concat (itoa n.host_base) "/health");
  sidecar = host_sidecar n.sidecar;
}

host_hub : Option Hub → Option Hub
host_hub none = none
host_hub (some h) = some (record h { api_url = or_host h.host_api h.api_url })

host_pairs : Dict UrlPair → Dict UrlPair
host_pairs [] = []
host_pairs ((name, p) ∷ rest) =
    (name, record p { url = or_host p.host_url p.url }) ∷ host_pairs rest

host_services : Dict Service → Dict Service
unfolding host_pairs
host_services [] = []
host_services ((name, s) ∷ rest) =
    (name, record s { url = or_host s.host_url s.url; urls = host_pairs s.urls })
    ∷ host_services rest

unfoldable pub use_host_urls : Inventory → Inventory
unfolding host_node host_hub host_services
use_host_urls inv = record inv {
  nodes = map host_node inv.nodes;
  hub = host_hub inv.hub;
  services = host_services inv.services;
}
