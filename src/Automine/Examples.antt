-- ===== src/Automine/Examples.antt =====
-- Runs of the metronome of internal/automine/automine.go at concrete inputs.
use chaos_test.Common.{◌+◌, ◌*◌, ◌≡◌, true, false, pos, List, [], ◌∷◌, arith}
use chaos_test.Wallet.Tracker.{second}
use chaos_test.Automine.{Config, Service, hashes, failure}
use chaos_test.Automine.Clamp.{InRange}
use chaos_test.Automine.Cadence.{Firing, rounds, cadence}
use chaos_test.Automine.Mining.{Attempt}

abbrev plan : Config
plan = record { enabled = true; interval = pos (600 * second); node = "svnode1"; blocks = pos 1 }

abbrev off : Config
off = record plan { enabled = false }

abbrev service : Service
service = record {
  has_miner = true;
  has_bus = true;
  cfg = plan;
  next_at = 600 * second;
  last_at = 0;
  blocks_mined = 0;
  runs = 0;
  last_err = "";
  reset = false;
}

abbrev off_range : InRange off
off_range = record {
  least = omega arith;
  most = omega arith;
  some_blocks = omega arith;
  few_blocks = omega arith;
}

abbrev firings : List Firing
firings =
    record { at = 601 * second; answer = hashes ("aa" ∷ []); over = 620 * second }
    ∷ record { at = 1200 * second; answer = failure "refused"; over = 1201 * second }
    ∷ []

cadence_example : (rounds plan firings service).next_at ≡ 600 * second + 2 * (600 * second)
cadence_example = cadence plan firings service (omega arith, (omega arith, tt))

abbrev calls : List Attempt
calls =
    record { node = "svnode1"; answer = failure "refused"; over = 5 }
    ∷ record { node = "svnode1"; answer = hashes ("aa" ∷ "bb" ∷ []); over = 9 }
    ∷ []
