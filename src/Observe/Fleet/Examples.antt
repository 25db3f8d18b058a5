-- ===== src/Observe/Fleet/Examples.antt =====
-- Runs of the fleet of internal/observe/fleet.go at concrete inputs.
use chaos_test.Common.{
  ℕ, pos, ◌≡◌, refl, String, true, false, none, some, List, [], ◌∷◌, ◌++◌, map, keep, All,
  if◌then◌else◌, ◌+◌,
}
use chaos_test.Common.Dict.{Distinct, lookup, contains, insert}
use chaos_test.Common.Text.{itoa}
use chaos_test.Logs.Text.{codes}
use chaos_test.Alerts.{Fund}
use chaos_test.Topology.{Node, Inventory, Service, is_sv}
use chaos_test.Svnode.{entry, some_freezes}
use chaos_test.Observe.Snapshot.{Reply, failed, got, OutpointState, OutpointView}
use chaos_test.Observe.Fleet.{Fleet, new_fleet, state_of}
use chaos_test.Observe.Fleet.Nodes.{
  Header, Answers, begin_poll, tip_events, store, polled_state, probe_alert,
}
use chaos_test.Observe.Fleet.World.{World, Reach, here, next, reads, writes, probes, names, IsTold}
use chaos_test.Observe.Fleet.Alerting.{Reach-IsTold}
use chaos_test.Observe.Fleet.Tips.{take_turns, take_turns-tips, headers}
use chaos_test.Observe.Fleet.Shown.{changes, is_tip_of, last_shown, shown_at}
use chaos_test.Observe.Fleet.Tips
use chaos_test.Observe.Fleet.Watch.{key, watch, outpoint, refresh_sv, Sight, no_view, record_view}
use chaos_test.Observe.Fleet.Statuses.{
  take_reports, take_reports-changes, events_from, statuses_of, last_report, by_node,
}
use chaos_test.Observe.Fleet.Watched.{refresh_sv-frozen}
use chaos_test.Observe.Fleet.ArcadePolls.{ArcadeHealth}

abbrev teranode1 : Node
teranode1 = record {
  kind = "teranode";
  name = "teranode1";
  index = 1;
  chaos_ip = "10.1.0.11";
  alert_ip = "10.2.0.11";
  ctl_ip = "10.3.0.11";
  alert_addr = "";
  rpc_url = "http://10.3.0.11:9292";
  asset_url = "http://10.3.0.11:8090/api/v1";
  health_url = "";
  host_rpc_url = "";
  host_asset_url = "http://localhost:20190/api/v1";
  host_base = 20100;
  container = "stack-teranode1";
  sidecar = none;
}

abbrev svnode1 : Node
svnode1 = record teranode1 {
  kind = "svnode";
  name = "svnode1";
  container = "stack-svnode1";
  sidecar = some (record {
    name = "alert1";
    container = "stack-alert1";
    ctl_ip = "10.3.0.31";
    api_url = "http://10.3.0.31:3000";
    host_api = "http://localhost:3001";
  });
}

abbrev arcade_service : Service
arcade_service = record {
  url = "http://10.3.0.40:8080";
  host_url = "http://localhost:8080";
  urls = ("chaintracks", record { url = "http://10.3.0.40:8083"; host_url = "" }) ∷ [];
}

abbrev stack : Inventory
stack = record {
  network = "regtest";
  networks = record { chaos_name = "stack_chaosnet"; alert_name = "stack_alertnet" };
  nodes = teranode1 ∷ svnode1 ∷ [];
  hub = none;
  services = ("arcade", arcade_service) ∷ [];
}

abbrev quiet : Answers
quiet = record {
  header = failed "refused";
  fsm = failed "refused";
  mempool = failed "refused";
  build_info = failed "refused";
  peers = failed "refused";
  sub_version = failed "refused";
  health = failed "refused";
}

abbrev block1 : Header
block1 = record { hash = "00aa"; height = 7 }

abbrev mined : Answers
mined = record quiet { header = got block1; health = got (pos 2) }

-- A poll of the SV node that its own alert probe overtakes.
abbrev reading : World
reading = record {
  fleet = new_fleet stack;
  held = record { node = svnode1; seen = begin_poll 10 svnode1 (new_fleet stack) } ∷ [];
  answers = [];
  said = [];
}

abbrev probed : World
probed = record {
  fleet = (probe_alert "svnode1" (got 4) reading.fleet).1;
  held = reading.held;
  answers = ("svnode1", got 4) ∷ [];
  said = [] ++ (probe_alert "svnode1" (got 4) reading.fleet).0;
}

abbrev polled : World
polled = record {
  fleet =
      store 12 "svnode1"
        (polled_state svnode1 probed.fleet mined (begin_poll 10 svnode1 (new_fleet stack)))
        probed.fleet;
  held = [] ++ [];
  answers = probed.answers;
  said = probed.said ++ tip_events (begin_poll 10 svnode1 (new_fleet stack)) mined.header;
}

overtaken : Reach stack polled
overtaken =
    next {w = probed}
      (next {w = reading} (next here (reads 10 svnode1 refl)) (probes "svnode1" (got 4) refl))
      (writes [] (record { node = svnode1; seen = begin_poll 10 svnode1 (new_fleet stack) }) []
        mined 12 refl refl)

two_names : Distinct (map (λ (n : Node). n.name) stack.nodes)
unfolding contains
two_names = (refl, (refl, tt))

Reach-IsTold_example :
    (names polled.fleet.nodes ≡ map (λ (n : Node). n.name) stack.nodes)
    × All (IsTold polled.answers) polled.fleet.nodes
Reach-IsTold_example = Reach-IsTold stack {w = polled} two_names overtaken

first_tip : shown_at "teranode1" (new_fleet stack).nodes ≡ some ("", 0, false)
unfolding new_fleet shown_at is_sv lookup insert
first_tip = refl

abbrev turns : List Tips.Turn
turns =
    Tips.polls 10 11 teranode1 mined
    ∷ Tips.probes "teranode1" (got 3)
    ∷ Tips.polls 20 21 teranode1 quiet
    ∷ Tips.polls 22 23 svnode1 mined
    ∷ Tips.polls 30 31 teranode1 mined
    ∷ []

take_turns-tips_example :
    (keep (is_tip_of "teranode1") (take_turns turns (new_fleet stack)).0
      ≡ changes "teranode1" "" (headers "teranode1" turns))
    × (shown_at "teranode1" (take_turns turns (new_fleet stack)).1.nodes
        ≡ some (last_shown ("", 0, false) (headers "teranode1" turns)))
take_turns-tips_example =
    take_turns-tips "teranode1" turns (new_fleet stack) {s = ("", 0, false)} first_tip

-- An output that is watched, and frozen on the SV node.
abbrev txid : String
txid = "aB01"

abbrev watching : Fleet
watching = watch txid 1 "victim" (new_fleet stack)

abbrev watched_output : OutpointState
watched_output = record { tx_id = txid; vout = 1; label = "victim"; per_node = [] }

is_watched : outpoint txid 1 watching ≡ some watched_output
unfolding watch outpoint new_fleet lookup insert key itoa
is_watched = refl

abbrev reports : List (String × OutpointView)
reports =
    ("svnode1", record no_view { status = "OK" })
    ∷ ("teranode1", record no_view { status = "OK" })
    ∷ ("svnode1", record no_view { status = "OK" })
    ∷ ("svnode1", record no_view { status = "FROZEN" })
    ∷ []

take_reports-changes_example :
    (keep (by_node "svnode1") (take_reports txid 1 reports watching).0
      ≡ events_from "svnode1" txid 1 none (statuses_of "svnode1" reports))
    × ((w' : OutpointState) × (outpoint txid 1 (take_reports txid 1 reports watching).1 ≡ some w')
        × (lookup "svnode1" w'.per_node ≡ last_report "svnode1" none reports))
unfolding lookup
take_reports-changes_example =
    take_reports-changes "svnode1" txid 1 reports watching watched_output is_watched

abbrev freeze : Fund
freeze = record { tx_id = codes "ab01"; vout = 1; start = 1; stop = 0; expires = false }

abbrev sight : Sight
sight = record {
  utxos = failed "no such method";
  tx_out = got (some 5000);
  blacklist = got (map entry (freeze ∷ []));
  known = true;
}

refresh_sv-frozen_example : (refresh_sv "svnode1" txid 1 sight watching).view.status ≡ (
    if some_freezes (codes txid) 1 ((state_of "svnode1" watching).height + 1) (freeze ∷ [])
    then "FROZEN"
    else "OK")
refresh_sv-frozen_example =
    refresh_sv-frozen "svnode1" txid 1 5000 (freeze ∷ []) sight watching refl refl

abbrev frozen_there : Fleet
frozen_there = (record_view "svnode1" txid 1 (record no_view { status = "FROZEN" }) watching).1

abbrev frozen_output : OutpointState
frozen_output = record watched_output {
  per_node = ("svnode1", record no_view { status = "FROZEN" }) ∷ [];
}

is_frozen : outpoint txid 1 frozen_there ≡ some frozen_output
unfolding watch outpoint new_fleet lookup insert key itoa record_view
is_frozen = refl

has_view : lookup "svnode1" frozen_output.per_node ≡ some (record no_view { status = "FROZEN" })
unfolding lookup
has_view = refl

abbrev unlisted : Sight
unlisted = record sight { blacklist = failed "timeout" }

abbrev arcade_polls : List (ℕ × Reply ArcadeHealth × Reply Header)
arcade_polls =
    (1, failed "refused", got block1)
    ∷ (2, failed "refused", failed "refused")
    ∷ (3, failed "refused", got block1)
    ∷ []

has_arcade :
    (new_fleet stack).arcade_client ≡ some ("http://10.3.0.40:8080", "http://10.3.0.40:8083")
unfolding new_fleet lookup insert
has_arcade = refl
