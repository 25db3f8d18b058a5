-- ===== src/Diag/Examples.antt =====
-- Runs of internal/diag at concrete evidence.
use chaos_test.Common.{List, ◌≡◌, refl, true, false, pos, none, [], ◌∷◌}
use chaos_test.Common.Dict.{lookup}
use chaos_test.Diag.{TipInfo, FsmInfo, Health, FleetContext, in_sync, unknown}
use chaos_test.Diag.Probe.{Answers, got, failed, assemble}
use chaos_test.Diag.Fleet.{NodeView}
use chaos_test.Diag.Rules.{
  Input, evaluate, finish, source_ok, brief_of, blocks_behind, not_answering, stopped, fsm_is,
  catching, wedged, failed_before, count_connected, lonely, relevant_rejections, off_majority,
  forked, lagging, ailing, agrees, healthy,
}
use chaos_test.Diag.Sync.{InSync, in_sync-InSync}

abbrev fleet : FleetContext
fleet = record {
  max_height = 7;
  majority_tip = "aa";
  nodes = ("n1", record { reachable = true; partitions = [] }) ∷ [];
}

abbrev all_well : Answers
all_well = record {
  container = got "running";
  tip = got (record { height = 7; hash = "aa" });
  fsm = got (record { state = "RUNNING"; state_value = pos 1; legal_events = [] });
  catchup = got (record {
    is_catching_up = false;
    blocks_validated = pos 0;
    duration_ms = pos 0;
    previous_attempt = none;
  });
  peers = got (record { peer_id = "p"; peer_height = 7; is_connected = true } ∷ []);
  heights = got (record { best = 7 });
  invalid = got [];
  health = got (record { overall_status = pos 200; unhealthy = [] });
}

abbrev judged : Answers → Input
judged a = record { node = "n1"; diag = assemble a; fleet = fleet; prev = none; now = 0 }

is_in_sync : (evaluate (judged all_well)).class ≡ in_sync
unfolding evaluate finish assemble source_ok brief_of blocks_behind not_answering stopped fsm_is
    catching wedged failed_before count_connected lonely relevant_rejections off_majority forked
    lagging ailing agrees healthy lookup
is_in_sync = refl

in_sync-InSync_example : InSync (judged all_well)
in_sync-InSync_example = in_sync-InSync (judged all_well) is_in_sync

-- The health and the invalid blocks could not be read.
abbrev two_failed : Answers
two_failed = record all_well {
  invalid = failed "timeout" "timeout" (pos 0);
  health = failed "no health URL" "not_configured" (pos 0);
}

is_unexplained : (evaluate (judged two_failed)).class ≡ unknown
unfolding evaluate finish assemble source_ok brief_of blocks_behind not_answering stopped fsm_is
    catching wedged failed_before count_connected lonely relevant_rejections off_majority forked
    lagging ailing agrees healthy lookup
is_unexplained = refl

-- The state machine catches up, and the catchup could not be read.
abbrev catching_state : FsmInfo
catching_state = record { state = "CATCHINGBLOCKS"; state_value = pos 2; legal_events = [] }

abbrev blind : Answers
blind = record all_well { fsm = got catching_state; catchup = failed "timeout" "timeout" (pos 0) }

-- It has rejected the majority's block at the fleet's height and stands on one of its own.
abbrev own_tip : TipInfo
own_tip = record { height = 7; hash = "bb" }

abbrev forked_off : Answers
forked_off = record all_well {
  tip = got own_tip;
  invalid = got (record { block_at = 7; block_hash = "aa" } ∷ []);
}

abbrev sick : Health
sick = record { overall_status = pos 503; unhealthy = "kafka" ∷ [] }

-- Only the container and the health answer.
abbrev dark : Answers
dark = record {
  container = got "running";
  tip = failed "timeout" "timeout" (pos 0);
  fsm = failed "timeout" "timeout" (pos 0);
  catchup = failed "timeout" "timeout" (pos 0);
  peers = failed "timeout" "timeout" (pos 0);
  heights = failed "timeout" "timeout" (pos 0);
  invalid = failed "timeout" "timeout" (pos 0);
  health = got sick;
}

-- Two nodes at the top on two tips, one of them held by a third.
abbrev snapshot : List NodeView
snapshot =
    record { name = "n1"; height = 7; tip = "bb"; reachable = true; partitions = [] }
    ∷ record { name = "n2"; height = 7; tip = "aa"; reachable = true; partitions = [] }
    ∷ record { name = "n3"; height = 7; tip = "aa"; reachable = true; partitions = [] }
    ∷ record { name = "n4"; height = 9; tip = "cc"; reachable = false; partitions = [] }
    ∷ []
