-- ===== src/Diag.antt =====
-- internal/diag/diag.go with the parts of bsv-regtest/teranode that the rules read: one node's
-- evidence and the fleet's view. The texts for the reader (headline, details, suggestions and log
-- hints), the timings and what no rule reads are left out.
pub mod Probe
pub mod Fleet
pub mod Rules
pub mod Sync
pub mod Missing
pub mod Fork
mod Examples
use chaos_test.Common.{ℕ, ℤ, Bool, String, Option, List, [], ◌∷◌}
use chaos_test.Common.Dict.{Dict}

abbrev pub src_container : String
src_container = "container"

abbrev pub src_tip : String
src_tip = "tip"

abbrev pub src_fsm : String
src_fsm = "fsm"

abbrev pub src_catchup : String
src_catchup = "catchup"

abbrev pub src_peers : String
src_peers = "peers"

abbrev pub src_heights : String
src_heights = "heights"

abbrev pub src_invalid : String
src_invalid = "invalid"

abbrev pub src_health : String
src_health = "health"

abbrev pub source_order : List String
source_order =
    src_container ∷ src_tip ∷ src_fsm ∷ src_catchup ∷ src_peers ∷ src_heights ∷ src_invalid
    ∷ src_health ∷ []

pub record SourceStatus : Type 0 where
  pub name : String
  pub ok : Bool
  pub error : String
  pub reason : String
  pub http_status : ℤ

-- Heights are numbers below 2^32.
pub record TipInfo : Type 0 where
  pub height : ℕ
  pub hash : String

pub record FsmInfo : Type 0 where
  pub state : String
  pub state_value : ℤ
  pub legal_events : List String

-- `attempt_time` in seconds since 1970.
pub record PreviousAttempt : Type 0 where
  pub error_message : String
  pub error_type : String
  pub attempt_time : ℤ

pub record CatchupStatus : Type 0 where
  pub is_catching_up : Bool
  pub blocks_validated : ℤ
  pub duration_ms : ℤ
  pub previous_attempt : Option PreviousAttempt

pub record Peer : Type 0 where
  pub peer_id : String
  pub peer_height : ℕ
  pub is_connected : Bool

pub record InvalidBlock : Type 0 where
  pub block_at : ℕ
  pub block_hash : String

pub record Health : Type 0 where
  pub overall_status : ℤ
  pub unhealthy : List String

-- The heights of the node's services, which no rule reads.
pub record ServiceHeights : Type 0 where
  pub best : ℕ

pub record Diagnostics : Type 0 where
  pub container_state : String
  pub sources : List SourceStatus
  pub degraded : Bool
  pub tip : Option TipInfo
  pub fsm : Option FsmInfo
  pub catchup : Option CatchupStatus
  pub peers : List Peer
  pub heights : Option ServiceHeights
  pub invalid : List InvalidBlock
  pub health : Option Health

pub record FleetNodeBrief : Type 0 where
  pub reachable : Bool
  pub partitions : List String

pub record FleetContext : Type 0 where
  pub max_height : ℕ
  pub majority_tip : String
  pub nodes : Dict FleetNodeBrief

pub data Class : Type 0 where
  unreachable container_down partitioned fsm_idle catchup_stalled catching_up catchup_failed : Class
  no_peers minority_tip behind unwell in_sync not_applicable unknown : Class

pub data Severity : Type 0 where
  fine info warn error_level unclear : Severity

pub data Confidence : Type 0 where
  high low : Confidence

pub record Verdict : Type 0 where
  pub class : Class
  pub severity : Severity
  pub evidence : List String
  pub missing : List String
  pub confidence : Confidence
