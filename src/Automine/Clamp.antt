-- ===== src/Automine/Clamp.antt =====
-- `clamp` of internal/automine/automine.go.
use chaos_test.Common.{◌≡◌, ℤ, pos, arith}
use chaos_test.Common.Int.{◌≤ℤ◌}
use chaos_test.Automine.{Config, clamp, clamp_interval, clamp_blocks, min_interval, max_interval}

pub record InRange (c : Config) : Type 0 where
  pub least : min_interval ≤ℤ c.interval
  pub most : c.interval ≤ℤ max_interval
  pub some_blocks : pos 1 ≤ℤ c.blocks
  pub few_blocks : c.blocks ≤ℤ pos 5

interval_range : (d : ℤ) → (min_interval ≤ℤ clamp_interval d) × (clamp_interval d ≤ℤ max_interval)
unfolding clamp_interval
interval_range d = ground arith

blocks_range : (n : ℤ) → (pos 1 ≤ℤ clamp_blocks n) × (clamp_blocks n ≤ℤ pos 5)
unfolding clamp_blocks
blocks_range n = ground arith

-- A clamped configuration has an interval of ten seconds to a day and one to five blocks.
pub clamp-InRange : (c : Config) → InRange (clamp c)
unfolding clamp
clamp-InRange c = record {
  least = (interval_range c.interval).0;
  most = (interval_range c.interval).1;
  some_blocks = (blocks_range c.blocks).0;
  few_blocks = (blocks_range c.blocks).1;
}

interval_fits : (d : ℤ) → min_interval ≤ℤ d → d ≤ℤ max_interval → clamp_interval d ≡ d
unfolding clamp_interval
interval_fits d lo hi = ground arith

blocks_fit : (n : ℤ) → pos 1 ≤ℤ n → n ≤ℤ pos 5 → clamp_blocks n ≡ n
unfolding clamp_blocks
blocks_fit n lo hi = ground arith

-- One that is in range already is left alone.
pub clamp_fits : (c : Config) → InRange c → clamp c ≡ c
unfolding clamp
clamp_fits c r =
    ground (
      arith,
      interval_fits c.interval r.least r.most,
      blocks_fit c.blocks r.some_blocks r.few_blocks,
    )
