-- ===== src/Observe/Fleet/Services.antt =====
-- internal/observe/fleet.go: the polls of the hub and of the services, and the sorted
-- outputs of a snapshot.
use Prim.Native.String.{◌++◌ as concat}
use chaos_test.Common.{
  ℕ, ℤ, String, Bool, true, false, not, ◌||◌, none, some, List, [], ◌∷◌, ◌++◌, map, ltb, ◌==◌,
  str_eq, if◌then◌else◌,
}
use chaos_test.Common.Dict.{Dict}
use chaos_test.Common.Text.{itoa}
use chaos_test.Topology.{Service}
use chaos_test.Wallet.Tracker.{Notice}
use chaos_test.Observe.Bus.{num}
use chaos_test.Observe.Snapshot.{Reply, failed, got, HubState, ServiceState, OutpointState}
use chaos_test.Observe.Fleet.{Fleet, less}

-- The health document of the hub.
pub record HubHealth : Type 0 where
  pub sequence : ℕ
  pub active_peers : ℤ
  pub unprocessed_alerts : ℤ

hub_answer : Reply HubHealth → HubState → List Notice × HubState
hub_answer (failed err) h = (
  [],
  record {
    reachable = false;
    sequence = h.sequence;
    active_peers = ℤ.pos 0;
    unprocessed = ℤ.pos 0;
    error = err;
  },
)
hub_answer (got a) h = (
  if a.sequence == h.sequence
      then []
      else record {
        kind = "alert_seq";
        node = "hub";
        message = concat "hub alert sequence → " (itoa a.sequence);
        attrs = ("sequence", num a.sequence) ∷ [];
      }
        ∷ [],
  record {
    reachable = true;
    sequence = a.sequence;
    active_peers = a.active_peers;
    unprocessed = a.unprocessed_alerts;
    error = "";
  },
)

unfoldable pub poll_hub : Reply HubHealth → Fleet → List Notice × Fleet
unfolding hub_answer
poll_hub r f = elim f.hub_client [
  | none ↦ ([], f)
  | some url ↦ let (said, h) = hub_answer r f.hub in (said, record f { hub = h })
]

-- `httpOK`, as an argument: whether the status is 2xx, and a detail.
abbrev pub HttpOk : Type 0
HttpOk = String → Bool × String

checked : String → Service → Bool → String → ServiceState
checked name svc healthy detail = record {
  name = name;
  url = svc.url;
  host_url = svc.host_url;
  healthy = healthy;
  detail = detail;
}

-- The wallet's storage server answers no health request: any answer will do.
service_state : HttpOk → String → Service → List ServiceState
service_state http_ok name svc =
    let health : Bool × String = http_ok (concat svc.url "/health") in
    let root : Bool × String = http_ok (concat svc.url "/") in
    if str_eq name "arcade" || str_eq name "merkle-service"
    then checked name svc health.0 health.1 ∷ []
    else if str_eq name "wallet-infra"
    then checked name svc (not (str_eq root.1 "unreachable")) root.1 ∷ []
    else []

service_states : HttpOk → Dict Service → List ServiceState
service_states http_ok [] = []
service_states http_ok ((name, svc) ∷ rest) =
    service_state http_ok name svc ++ service_states http_ok rest

-- A sort by a test: which of the orders of equal elements Go's `sort.Slice` gives is not told, and
-- the names of services and the outputs of a snapshot differ.
module _ {A : Type 0} (before : A → A → Bool) where
  unfoldable pub put : A → List A → List A
  put x [] = x ∷ []
  put x (y ∷ ys) = let below = put x ys in if before y x then y ∷ below else x ∷ y ∷ ys

  unfoldable pub sort : List A → List A
  sort [] = []
  sort (x ∷ xs) = put x (sort xs)

unfoldable pub poll_services : HttpOk → Fleet → Fleet
unfolding service_state service_states checked
poll_services http_ok f = record f {
  services =
      sort (λ (a b : ServiceState). less a.name b.name) (service_states http_ok f.inv.services);
}

unfoldable pub earlier_output : OutpointState → OutpointState → Bool
earlier_output a b = if str_eq a.tx_id b.tx_id then ltb a.vout b.vout else less a.tx_id b.tx_id

-- `Watched` of `Snapshot`; all else of it is a copy of the fleet's fields.
unfoldable pub snapshot_watched : Fleet → List OutpointState
snapshot_watched f = sort earlier_output (map (λ (e : String × OutpointState). e.1) f.watched)
