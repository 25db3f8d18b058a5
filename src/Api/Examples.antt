-- ===== src/Api/Examples.antt =====
-- Calls of internal/api/server.go at concrete inputs.
use chaos_test.Common.{
  false, ◌-◌, ℕ, ◌+◌, ◌*◌, ◌≤◌, ◌<◌, ◌≡◌, ◌≢◌, ◌⊎◌, refl, pos, String, true, ◌&&◌, none, some, [],
  ◌∷◌, length, arith, ltb, ◌==◌, if◌then◌else◌,
}
use chaos_test.Api.Funding
use chaos_test.Api.Funding.Waits
use chaos_test.Api.Funding.{
  Coinbase, is_spendable, found, search, search_from, find_spendable_coinbase, wait_for_proof,
}
use chaos_test.Api.Funding.Waits.{wait_for_proof-ends}
use chaos_test.Api.Funding.Coinbases.{IsMature, find_spendable_coinbase-IsMature}
use chaos_test.Api.TopUp.{
  Setting, TopUpRequest, Answers, refused, disabled, unknown_node, guard, top_up,
}
use chaos_test.Api.TopUp.Credit.{
  sum_up, is_ready, whole_of, is_built, is_accepted, is_credited, top_up-sum,
}
use chaos_test.Common.Dict.{lookup}
use chaos_test.Common.Text.{itoa}
use chaos_test.Topology.{Node, Inventory, node, is_sv, answers_to}
use chaos_test.Observe.Snapshot.{Reply, failed, got}
use chaos_test.Observe.Fleet.{Fleet, new_fleet, set_partition}
use chaos_test.Api.Attach.{pause}
use chaos_test.Api.Partition.{Target, Attempt, Partitioned, target_of, partition}
use chaos_test.Api.Cutting.{IsConfirmed, ArePaced, partition-ends, partition-blind}

abbrev pub teranode2 : Node
teranode2 = record {
  kind = "teranode";
  name = "teranode2";
  index = 2;
  chaos_ip = "10.1.0.12";
  alert_ip = "10.2.0.12";
  ctl_ip = "10.3.0.12";
  alert_addr = "";
  rpc_url = "";
  asset_url = "";
  health_url = "";
  host_rpc_url = "";
  host_asset_url = "";
  host_base = 0;
  container = "stack-teranode2";
  sidecar = none;
}

abbrev pub stack : Inventory
stack = record {
  network = "regtest";
  networks = record { chaos_name = "stack_chaosnet"; alert_name = "stack_alertnet" };
  nodes = teranode2 ∷ [];
  hub = none;
  services = [];
}

abbrev fleet : Fleet
fleet = new_fleet stack

-- The runtime still lists the network in the first attempt.
abbrev slow_cut : ℕ → Attempt
slow_cut i = record {
  change = none;
  began = 0;
  looks = λ j. record {
    nets = got (if i == 1 then "stack_chaosnet" ∷ "stack_ctlnet" ∷ [] else "stack_ctlnet" ∷ []);
    now = j * pause;
    over = none;
  };
}

abbrev silent_cut : ℕ → Attempt
silent_cut i = record {
  change = none;
  began = 0;
  looks = λ j. record { nets = failed "timeout"; now = j * pause; over = none };
}

slow_cut-paced : ArePaced slow_cut
slow_cut-paced i = record { first = omega arith; paced = λ j on. omega arith }

silent_cut-paced : ArePaced silent_cut
silent_cut-paced i = record { first = omega arith; paced = λ j on. omega arith }

known : node "2" fleet.inv ≡ some teranode2
unfolding node answers_to itoa is_sv new_fleet lookup
known = refl

abbrev chaosnet : Target
chaosnet = record { network = "stack_chaosnet"; container = "stack-teranode2" }

targeted : target_of fleet.inv teranode2 "p2p" ≡ got chaosnet
unfolding target_of new_fleet lookup
targeted = refl

partition-ends_example :
    (p : Partitioned) × (partition 18 "2" "p2p" true slow_cut fleet ≡ some p)
    × (length p.said ≤ 3)
    × ((p.err ≡ none)
          × (p.fleet ≡ set_partition "teranode2" "p2p" true fleet)
          × ((k : ℕ) × (1 ≤ k) × (k ≤ 3) × IsConfirmed chaosnet true (slow_cut k))
        ⊎ (p.err ≢ none) × (p.fleet ≡ fleet))
partition-ends_example =
    partition-ends "2" "p2p" true slow_cut fleet teranode2 chaosnet known targeted slow_cut-paced

partition-blind_example :
    (p : Partitioned) × (partition 18 "2" "p2p" true silent_cut fleet ≡ some p)
    × (p.err ≢ none)
    × (p.fleet ≡ fleet)
partition-blind_example =
    partition-blind "2" "p2p" true silent_cut fleet teranode2 chaosnet (λ i j. "timeout") known
      targeted silent_cut-paced (λ i j. refl)

-- A chain of height 210 whose newest two mature coinbases are spent or cannot be read.
abbrev coinbase_at : ℕ → Coinbase
coinbase_at h = record {
  found = if h == 109 then failed "no such block" else got "cb";
  view = if ltb h 110 then got "OK" else got "SPENT";
}

abbrev none_mined : ℕ → Reply ℕ
none_mined n = failed ""

is_there : find_spendable_coinbase (got 210) true none_mined coinbase_at ≡ found "cb" 108
unfolding find_spendable_coinbase search_from search is_spendable
is_there = refl

find_spendable_coinbase-IsMature_example :
    (t : ℕ) × ((got 210 ≡ got t) × (101 ≤ t)
      ⊎ ((low : ℕ) × (got 210 ≡ got low) × (low < 101) × (none_mined (102 - low) ≡ got t)))
    × IsMature coinbase_at t "cb" 108
find_spendable_coinbase-IsMature_example =
    find_spendable_coinbase-IsMature (got 210) true none_mined coinbase_at "cb" 108 is_there

-- A top up whose proof does not come in time.
abbrev late_proof : Answers
late_proof = record {
  deposit = got "mrL9";
  coinbase = found "cb" 108;
  spent = got "f1";
  submit = got none;
  mempool = some "timeout";
  proof = failed "timed out after 2m0s";
  beef = none;
  credit = failed "";
  split = failed "";
}

abbrev plain_top_up : TopUpRequest
plain_top_up = record {
  on_node = "2";
  mine = none;
  satoshis = 0;
  fee = 0;
  wait_seconds = pos 0;
  count = pos 1;
}

abbrev setting : Setting
setting = record {
  wallet_on = true;
  has_arcade = true;
  default_node = "teranode2";
  inv = stack;
  fleet = fleet;
}

top_up-sum_example :
    sum_up (top_up setting plain_top_up late_proof)
    ≡ whole_of plain_top_up late_proof
        (is_ready setting plain_top_up && is_built late_proof)
        (is_accepted late_proof.submit && is_credited late_proof)
top_up-sum_example = top_up-sum setting plain_top_up late_proof

-- A top up is refused without a wallet, and for a node that is not there.
no_wallet : top_up (record setting { wallet_on = false }) plain_top_up late_proof ≡ refused disabled
unfolding top_up guard
no_wallet = refl

nowhere : top_up setting (record plain_top_up { on_node = "9" }) late_proof ≡ refused unknown_node
unfolding top_up guard node answers_to itoa is_sv
nowhere = refl

abbrev proof_third : ℕ → Funding.Look
proof_third i = record {
  path = if ltb i 2 then failed "not found" else got ("fe12", 109);
  mempool = got [];
  status = failed "not found";
  now = i * 2000000000;
  over = none;
}

third-IsPaced : Waits.IsPaced 2000000000 0 proof_third
third-IsPaced = record { first = omega arith; paced = λ j on. omega arith }

wait_for_proof-ends_example :
    (r : Reply (String × ℕ)) × (wait_for_proof 4 "5s" (0 + 5000000000) proof_third ≡ some r)
    × ((i : ℕ) × Waits.IsLast "5s" (0 + 5000000000) (proof_third i) r
        × ((j : ℕ) → j < i → Waits.HasNone (proof_third j).path))
wait_for_proof-ends_example =
    wait_for_proof-ends "5s" 5000000000 0 proof_third 3 third-IsPaced (omega arith)
