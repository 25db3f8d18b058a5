-- ===== src/Lib.antt =====
-- The core logic of the chaos-test harness: an orchestrator that observes a fleet of nodes, drives
-- load and mining against it, and explains what it sees. The parts modelled here keep state of
-- their own and talk to each other through the event bus and through arguments.
--
-- * Observe.Bus (internal/observe/bus.go): the ring of events with fan-out. `draw` is the atomic
--   counter of `Publish`, `append` its part under the lock, `publish` both; Observe.Bus.World is
--   every interleaving of publishers, subscribers and readers as a step relation.
-- * Observe.Snapshot and Observe.Fleet (internal/observe/fleet.go): the records of the snapshot,
--   and the fleet with its polls. A poll of a node is `begin_poll`, which reads, and `tip_events`
--   and `store`, which publish and write (`poll_node` is all of it); `probe_alert` is the answer of
--   one node in `pollAlertSeqs`; `watch`, `unwatch`, `outpoint`, `refresh` and `record_view` (for
--   `record`) keep the watched outputs; `poll_hub`, `poll_arcade` and `poll_services` the rest.
--   Observe.Fleet.World lets polls, probes and partitions overlap.
-- * Topology (bsv-regtest/topology/inventory.go): the inventory, `node` and `use_host_urls`. Svnode
--   (internal/svnode/client.go): `frozen_at` and what `AddToConsensusBlacklist` sends (`entry`).
-- * Api (internal/api/server.go): `verify_attachment` and `partition`, which cuts a node off or
--   joins it, and records it with the fleet; of wallet.go, Api.Funding has the waits and the search
--   of a top up (`wait_for_proof`, `wait_for_mempool`, `find_spendable_coinbase`) and Api.TopUp its
--   guards and its stages (`top_up`).
-- * Wallet.Spend (bsv-regtest/wallet/raw.go) is `Spend`, and Wallet.Shapes (bsv-
--   regtest/walletd/tx.go) the outputs of a transaction by its shape (`outputs_for`).
-- * Chaos (internal/chaos/runtime.go): the engine that `New` picks, from the candidates for its
--   socket and the commands that are installed (`socket_candidates`, `first_socket`, `cli_order`);
--   Chaos.Socket and Chaos.Cli are what the two runtimes ask for, Chaos.Stream the frames of a log
--   (`demux_log_stream`), and Chaos.Read the window that `Logs` returns.
-- * Wallet.Tracker (internal/walletsvc/tracker.go, the row of types.go): `note`,
--   `set_wallet_status`, `rows_newest`, `row_of`, and in Wallet.Tracker.Poll `due`, `touch`,
--   `apply` and `poll`. Arcade (internal/arcade/tx.go) has the statuses and the record.
-- * Wallet.Send (internal/walletsvc/send.go, the request of types.go): `start`, `stop`, what
--   `sendOne` counts (`count`, `recount`, `sample`) and the end of `run` (`tear_down`);
--   Wallet.Send.Status has the snapshot (`status`) and the measured rate (`measure`);
--   Wallet.Send.World interleaves them, with one goroutine for each run and its workers.
-- * Automine (internal/automine/automine.go): a round of `Run` is `look`, then `wake` or `fire`,
--   which is `advance` and `mine_once`; beside it `configure`, `set_miner` and `status`.
-- * Logs (internal/logs): Parse scans a raw window into lines, Cursor encodes a position and finds
--   it again, Filter selects, and Page builds the page and the next cursor (`build`). A text is a
--   list of code points.
-- * Diag (internal/diag): Diag.Probe joins the answers of a node's probes into its evidence
--   (`assemble` for `probe`, `assemble_non_teranode` for `probeNonTeranode`), Diag.Fleet is the
--   fleet's view (`build_fleet_context`), and Diag.Rules reduces both to a verdict (`evaluate`,
--   with a guard for each rule, and `finish`).
-- * Scenario (internal/scenario/engine.go with parts of executor.go): `start` and the loaded runs;
--   Scenario.Asserting polls one assertion (`assert`); Scenario.Eval computes an expression of a
--   step's parameters (`eval`); Scenario.Steps is the loop of a run (`execute`) over what its steps
--   answer (`run_step`), and Scenario.Partitions the planes that a run has cut (`track` for
--   `trackPartition`, `cleanup`).
-- * Alerts (bsv-regtest/alerts): of wire.go, Alerts.Funds builds the payload of a freeze or
--   unfreeze (`funds_payload`) and reads it back (`decode_funds` for `Funds`), over Alerts.Hex;
--   Alerts.Payloads has the type names (`type_name`, `parse_type`), the other payloads and `build`.
--   Alerts.Log (log.go) records the alerts by sequence number (`append`, `get`, `latest`,
--   `entries`), and Alerts.Sync (host.go) is the host that pushes them to a peer (`push`,
--   `push_loop`) and answers one (`serve`, `serve_loop`), each up to a mark, and asks a peer for
--   its latest (`probe`).
-- * Api.Alerting (internal/api/server.go) joins these: `build_alert` builds an alert under the next
--   number and records it, `push_alert` pushes the log up to a number to a node, and
--   `alert_summaries` lists it.
-- * Health (bsv-regtest/teranode/health.go): the health document of a node, `walk` for the closure
--   of that name, `flatten_health`, and `get_health` for `Get`.
-- * Common has the notation, lists over the native numbers, whole numbers, Common.Dict, the
--   association list that stands for a Go map, and Common.Rounds, a loop that looks again until it
--   has a result, with the rounds that it needs.
--
-- Conventions. An instant is a number of nanoseconds since Go's zero time, 0 being the zero time;
-- in Logs, where times are compared across zones, it is a whole number since 1970 with its zone. A
-- formatted instant is a `Stamp`. The clock is an argument of each call. What a call publishes is
-- returned as a list of `Notice`s, the arguments of the bus's `Publish`.
--
-- Parameters stand for code outside the repository: the environment and the files (`getenv`,
-- `stat`, `look_path`), arcade's answers (`ask` of `poll`), the miner's answer (`Mined`), a send's
-- outcome (`Outcome`), the order of floats (`Floats`), the alert library's serialisation and
-- parser, its writer of a length with its bytes and its signatures (`Library`), what libp2p gives
-- for a peer (`Dialed`, `Stream`), what the nodes, the hub, arcade and the container runtime answer
-- (`Answers`, `Sight`, `Attempt`, `Look`), the host of a URL, time.Parse and time.Format (`Clock`),
-- regexp and the case maps (`Texts`), the text of a duration (`show`), and the whole part of a
-- float (`whole`).
--
-- Bounds. The counters of Send and Automine wrap at 2^64, as does the hash of a log entry. The
-- bus's counter, lengths, and the positions in a log are unbounded: they grow by one for an event
-- or a line. `verify_attachment` and `assert` take fuel, and end with `none` where it runs out: 18
-- rounds are enough for the five seconds of the first, and as many as the timeout has pauses, and
-- one more, for the second. `wait_for_proof`, `wait_for_mempool` and `eval` end with `none`
-- likewise: as many rounds as the time has pauses, and one more, are enough for the waits, and one
-- more than the expression has characters for `eval`. There is no other fuel whose end is a result:
-- `exchange_sort` takes the length of its list, `demux_log_stream` that of its stream, and `itoa`
-- and `show_nat` a number that is no smaller than the digits that they write.
--
-- Not modelled: the HTTP handlers, the JSON and the clients of other services, the processes, the
-- generated configuration, and the user interface; of rules.go the texts for the reader (headline,
-- details, suggestions and log hints); of probe.go the cache of samples; of internal/scenario what
-- the actions and the checks do, the templates around an expression, and the files; of send.go the
-- time that `Stop` waits; of tracker.go that another call may run between two answers of a poll; of
-- page.go the fields that the HTTP handler fills in (Truncated, FetchedAt, Elapsed); of bsv-
-- regtest/alerts the encoding of a frame, the deadlines of a stream, the file of the log, hub.go
-- and gossip.go.
mod Common
pub mod Api
pub mod Alerts
pub mod Observe
pub mod Arcade
pub mod Wallet
pub mod Automine
pub mod Chaos
pub mod Diag
pub mod Health
pub mod Logs
pub mod Scenario
pub mod Svnode
pub mod Topology
