-- ===== src/Automine.antt =====
-- internal/automine/automine.go: the metronome that mines on a fixed cadence. An instant is a number
-- of nanoseconds since Go's zero time, 0 the zero time, and a duration a signed number of them.
pub mod Clamp
pub mod Cadence
pub mod Mining
mod Examples
use Prim.Native.String.{◌++◌ as concat}
use chaos_test.Common.{
  ℕ, zero, suc, ◌+◌, ◌-◌, ◌*◌, ◌/◌, ◌%◌, ◌^◌, String, ℤ, pos, negsuc, Bool, true, false, not, ◌&&◌,
  ◌||◌, Option, none, some, List, [], ◌∷◌, ◌++◌, ltb, leb, ◌==◌, str_eq, if◌then◌else◌, length,
}
use chaos_test.Common.Int.{ltb_ℤ, leb_ℤ, pos_part}
use chaos_test.Common.Text.{itoa}
use chaos_test.Observe.Bus.{Attrs, Value, text, num, flag, texts}
use chaos_test.Wallet.Tracker.{Notice, second, Stamp, blank, rfc3339}

abbrev pub min_interval : ℤ
min_interval = pos (10 * second)

abbrev pub max_interval : ℤ
max_interval = pos (86400 * second)

abbrev pub default_interval : ℤ
default_interval = pos (600 * second)

pub record Config : Type 0 where
  pub enabled : Bool
  pub interval : ℤ
  pub node : String
  pub blocks : ℤ

pub record Status : Type 0 where
  pub is_enabled : Bool
  pub interval_seconds : ℕ
  pub on_node : String
  pub block_count : ℤ
  pub next_mine_at : Stamp
  pub now : Stamp
  pub last_mined_at : Stamp
  pub total_mined : ℕ
  pub total_runs : ℕ
  pub last_error : String

-- `reset` is whether the channel of one place holds its token.
pub record Service : Type 0 where
  pub has_miner : Bool
  pub has_bus : Bool
  pub cfg : Config
  pub next_at : ℕ
  pub last_at : ℕ
  pub blocks_mined : ℕ
  pub runs : ℕ
  pub last_err : String
  pub reset : Bool

clamp_interval : ℤ → ℤ
clamp_interval d =
    let given : ℤ = if leb_ℤ d (pos 0) then default_interval else d in
    let low : ℤ = if ltb_ℤ given min_interval then min_interval else given in
    if ltb_ℤ max_interval low then max_interval else low

clamp_blocks : ℤ → ℤ
clamp_blocks n = if leb_ℤ n (pos 0) then pos 1 else if ltb_ℤ (pos 5) n then pos 5 else n

unfoldable pub clamp : Config → Config
unfolding clamp_interval clamp_blocks
clamp c = record c { interval = clamp_interval c.interval; blocks = clamp_blocks c.blocks }

pub new_service : Bool → Bool → Config → Service
new_service has_miner has_bus cfg = record {
  has_miner = has_miner;
  has_bus = has_bus;
  cfg = clamp cfg;
  next_at = 0;
  last_at = 0;
  blocks_mined = 0;
  runs = 0;
  last_err = "";
  reset = false;
}

-- `t.Add(d)` for a duration that is not negative, as a clamped interval is.
abbrev pub later : ℕ → ℤ → ℕ
later t d = t + pos_part d

-- The first lines of `Run`.
unfoldable pub begin : ℕ → Service → Service
begin now s = record s { next_at = later now s.cfg.interval }

-- What a round of the loop reads under the lock before it waits, and how long it waits.
pub record Round : Type 0 where
  pub wait : ℕ
  pub plan : Config

unfoldable pub look : ℕ → Service → Round
look now s = record { wait = s.next_at - now; plan = s.cfg }

-- The round that the reset channel wakes.
unfoldable pub wake : Service → Service
wake s = record s { reset = false }

-- The schedule moves on by the interval that the round has read; `now` is read under the lock.
unfoldable pub advance : Config → ℕ → Service → Service
advance plan now s =
    let next = later s.next_at plan.interval in
    record s { next_at = if ltb next now then later now plan.interval else next }

-- Whether the round goes on to mine.
unfoldable pub mines : Config → Bool
mines plan = plan.enabled && not (str_eq plan.node "")

-- What the miner answers: the hashes of the new blocks, or an error.
pub data Mined : Type 0 where
  hashes : List String → Mined
  failure : String → Mined

mined : String → Mined → ℕ → Service → Service × List Notice
mined node (failure err) now s = (
  record s { runs = (s.runs + 1) % 2 ^ 64; last_err = err },
  if s.has_bus
      then record {
        kind = "error";
        node = node;
        message = concat "auto-mine failed: " err;
        attrs = [];
      }
        ∷ []
      else [],
)
mined node (hashes hs) now s = (
  record s {
    runs = (s.runs + 1) % 2 ^ 64;
    last_err = "";
    last_at = now;
    blocks_mined = (s.blocks_mined + length hs) % 2 ^ 64;
  },
  if s.has_bus
      then record {
        kind = "mine";
        node = node;
        message =
            concat node (concat " mined " (concat (itoa (length hs)) " block(s) [auto-mine]"));
        attrs = ("hashes", texts hs) ∷ ("source", text "automine") ∷ [];
      }
        ∷ []
      else [],
)

unfoldable pub mine_once : String → Mined → ℕ → Service → Service × List Notice
unfolding mined
mine_once node answer now s = if s.has_miner then mined node answer now s else (s, [])

-- A round whose timer fires.
unfoldable pub fire : Config → ℕ → Mined → ℕ → Service → Service × List Notice
fire plan now answer done s =
    let s' = advance plan now s in
    if mines plan then mine_once plan.node answer done s' else (s', [])

unfoldable pub set_miner : Bool → Service → Service
set_miner m s = record s { has_miner = m }

stamp : ℕ → Stamp
stamp t = if t == 0 then blank else rfc3339 t

unfoldable pub status : ℕ → Service → Status
unfolding stamp
status now s = record {
  is_enabled = s.cfg.enabled;
  interval_seconds = pos_part s.cfg.interval / second;
  on_node = s.cfg.node;
  block_count = s.cfg.blocks;
  next_mine_at = stamp s.next_at;
  now = rfc3339 now;
  last_mined_at = stamp s.last_at;
  total_mined = s.blocks_mined;
  total_runs = s.runs;
  last_error = s.last_err;
}

-- `show` is `Duration.String` of a number of seconds.
unfoldable pub configure : (ℕ → String) → Config → ℕ → Service → Service × Status × List Notice
configure show cfg now s =
    let clamped = clamp cfg in
    let s' : Service = record s {
      cfg = clamped;
      next_at = later now clamped.interval;
      reset = true;
    } in
    let st = status now s' in
    (
      s',
      st,
      if s.has_bus
          then record {
            kind = "mine";
            node = st.on_node;
            message =
                if st.is_enabled
                then concat "auto-mine every "
                    (concat (show st.interval_seconds) (concat " on " st.on_node))
                else "auto-mine disabled";
            attrs =
                ("enabled", flag st.is_enabled)
                ∷ ("intervalSeconds", num st.interval_seconds)
                ∷ ("node", text st.on_node)
                ∷ [];
          }
            ∷ []
          else [],
    )
