-- ===== src/Observe/Snapshot.antt =====
-- internal/observe/fleet.go: the records of the snapshot, and what a client's call returns.
use chaos_test.Common.{ℕ, ℤ, pos, String, Bool, false, List, []}
use chaos_test.Common.Dict.{Dict}

-- A value, or the text of an error.
pub data Reply {ℓ} (A : Type ℓ) : Type ℓ where
  failed : String → Reply A
  got : A → Reply A

pub record NodeState : Type 0 where
  pub kind : String
  pub name : String
  pub index : ℕ
  pub reachable : Bool
  pub height : ℕ
  pub tip : String
  pub fsm : String
  pub peers : ℕ
  pub mempool_count : ℕ
  pub mempool : List String
  pub alert_seq : ℤ
  pub alert_reachable : Bool
  pub alert_source : String
  pub alert_unprocessed : ℤ
  pub sidecar_url : String
  pub sidecar_container : String
  pub version : String
  pub commit : String
  pub container : String
  pub host_url : String
  pub partitions : List String
  pub error : String
  pub updated_at : ℕ

pub record HubState : Type 0 where
  pub reachable : Bool
  pub sequence : ℕ
  pub active_peers : ℤ
  pub unprocessed : ℤ
  pub error : String

pub record ServiceState : Type 0 where
  pub name : String
  pub url : String
  pub host_url : String
  pub healthy : Bool
  pub detail : String

pub record ArcadeDatahub : Type 0 where
  pub url : String
  pub node : String
  pub source : String
  pub healthy : Bool

pub record ArcadeState : Type 0 where
  pub configured : Bool
  pub reachable : Bool
  pub healthy : Bool
  pub version : String
  pub status : String
  pub block_height : ℕ
  pub height : ℕ
  pub tip : String
  pub datahubs : List ArcadeDatahub
  pub url : String
  pub chaintracks_url : String
  pub host_url : String
  pub host_health_url : String
  pub host_events_url : String
  pub host_chaintracks_url : String
  pub error : String
  pub tip_error : String
  pub updated_at : ℕ

pub record OutpointView : Type 0 where
  pub status : String
  pub spent_by : String
  pub utxo_hash : String
  pub satoshis : ℕ
  pub error : String

pub record OutpointState : Type 0 where
  pub tx_id : String
  pub vout : ℕ
  pub label : String
  pub per_node : Dict OutpointView

abbrev pub no_state : NodeState
no_state = record {
  kind = "";
  name = "";
  index = 0;
  reachable = false;
  height = 0;
  tip = "";
  fsm = "";
  peers = 0;
  mempool_count = 0;
  mempool = [];
  alert_seq = pos 0;
  alert_reachable = false;
  alert_source = "";
  alert_unprocessed = pos 0;
  sidecar_url = "";
  sidecar_container = "";
  version = "";
  commit = "";
  container = "";
  host_url = "";
  partitions = [];
  error = "";
  updated_at = 0;
}

abbrev pub no_arcade : ArcadeState
no_arcade = record {
  configured = false;
  reachable = false;
  healthy = false;
  version = "";
  status = "";
  block_height = 0;
  height = 0;
  tip = "";
  datahubs = [];
  url = "";
  chaintracks_url = "";
  host_url = "";
  host_health_url = "";
  host_events_url = "";
  host_chaintracks_url = "";
  error = "";
  tip_error = "";
  updated_at = 0;
}
