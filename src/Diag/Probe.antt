-- ===== src/Diag/Probe.antt =====
-- internal/diag/probe.go: the answers of a node's probes, joined into its evidence. The probes run
-- at once, but each writes fields of its own, so that only their answers count.
use chaos_test.Common.{
  ℤ, pos, Bool, true, false, not, ◌||◌, String, Option, none, some, List, [], ◌∷◌, map,
}
use chaos_test.Common.Dict.{Dict, lookup}
use chaos_test.Diag.{
  SourceStatus, TipInfo, FsmInfo, CatchupStatus, Peer, ServiceHeights, InvalidBlock, Health,
  Diagnostics, source_order, src_container, src_tip, src_fsm, src_catchup, src_peers, src_heights,
  src_invalid, src_health,
}

-- What a probe returns: a value, or an error with its class and HTTP status.
pub data Answer (A : Type 0) : Type 0 where
  got : A → Answer A
  failed : String → String → ℤ → Answer A

pub record Answers : Type 0 where
  pub container : Answer String
  pub tip : Answer TipInfo
  pub fsm : Answer FsmInfo
  pub catchup : Answer CatchupStatus
  pub peers : Answer (List Peer)
  pub heights : Answer ServiceHeights
  pub invalid : Answer (List InvalidBlock)
  pub health : Answer Health

module _ {A : Type 0} where
  -- `record`
  unfoldable pub status_of : String → Answer A → SourceStatus
  status_of name (got a) = record {
    name = name;
    ok = true;
    error = "";
    reason = "";
    http_status = pos 0;
  }
  status_of name (failed err reason code) = record {
    name = name;
    ok = false;
    error = err;
    reason = reason;
    http_status = code;
  }

  -- In `probeNonTeranode` the HTTP status is not read off the error.
  unfoldable pub bare_status_of : String → Answer A → SourceStatus
  bare_status_of name a = record (status_of name a) { http_status = pos 0 }

  unfoldable pub section : Answer A → Option A
  section (got a) = some a
  section (failed err reason code) = none

  unfoldable pub with_default : A → Answer A → A
  with_default zero (got a) = a
  with_default zero (failed err reason code) = zero

-- `status[name]`, a record of a source that was not probed where there is none.
find_status : Dict SourceStatus → String → SourceStatus
find_status statuses name = elim (lookup name statuses) [
  | some s ↦ s
  | none ↦ record {
    name = name;
    ok = false;
    error = "not probed";
    reason = "error";
    http_status = pos 0;
  }
]

abbrev pub any_failed : List SourceStatus → Bool
any_failed [] = false
any_failed (s ∷ ss) = not s.ok || any_failed ss

-- `probe`, up to the verdict.
unfoldable pub assemble : Answers → Diagnostics
unfolding find_status status_of section with_default lookup
assemble a =
    let statuses : Dict SourceStatus =
      (src_container, status_of src_container a.container)
      ∷ (src_tip, status_of src_tip a.tip)
      ∷ (src_fsm, status_of src_fsm a.fsm)
      ∷ (src_catchup, status_of src_catchup a.catchup)
      ∷ (src_peers, status_of src_peers a.peers)
      ∷ (src_heights, status_of src_heights a.heights)
      ∷ (src_invalid, status_of src_invalid a.invalid)
      ∷ (src_health, status_of src_health a.health)
      ∷ [] in
    let sources : List SourceStatus = map (find_status statuses) source_order in
    record {
      container_state = with_default "" a.container;
      sources = sources;
      degraded = any_failed sources;
      tip = section a.tip;
      fsm = section a.fsm;
      catchup = section a.catchup;
      peers = with_default [] a.peers;
      heights = section a.heights;
      invalid = with_default [] a.invalid;
      health = section a.health;
    }

-- `probeNonTeranode`: of a node without an asset API only the container and the tip.
unfoldable pub assemble_non_teranode : Answer String → Answer TipInfo → Diagnostics
unfolding bare_status_of section with_default
assemble_non_teranode container tip = record {
  container_state = with_default "" container;
  sources = bare_status_of src_container container ∷ bare_status_of src_tip tip ∷ [];
  degraded = not (bare_status_of src_tip tip).ok;
  tip = section tip;
  fsm = none;
  catchup = none;
  peers = [];
  heights = none;
  invalid = [];
  health = none;
}
