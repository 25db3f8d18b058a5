-- ===== src/Wallet/Send.antt =====
-- internal/walletsvc/send.go, with SendRequest of types.go: the sustained send. Rates are values of
-- an abstract type of floats, of which the code uses an order and four constants. An instant is a
-- number of nanoseconds since Go's zero time, and 0 the zero time.
pub mod World
pub mod Normal
pub mod Lifecycle
pub mod Workers
pub mod Counters
pub mod Status
mod Examples
use Prim.Native.String.{◌++◌ as concat}
use chaos_test.Common.{
  ℕ, zero, suc, ◌+◌, ◌-◌, ◌/◌, ◌%◌, ◌^◌, String, ℤ, pos, negsuc, Bool, true, false, not, ◌&&◌, ◌||◌,
  Option, none, some, List, [], ◌∷◌, ◌++◌, ltb, leb, ◌==◌, str_eq, if◌then◌else◌,
}
use chaos_test.Common.Int.{ltb_ℤ, leb_ℤ}
use chaos_test.Observe.Bus.{Attrs, num}
use chaos_test.Wallet.Tracker.{Notice}

-- What the code uses of float64.
pub record Floats : Type 1 where
  pub F : Type 0
  pub lt : F → F → Bool
  pub le_zero : F → Bool
  pub one : F
  pub min_tps : F
  pub max_tps : F

pub record SendRequest (F : Type 0) : Type 0 where
  pub tps : F
  pub workers : ℤ
  pub shape : String
  pub target : String
  pub satoshis : ℕ
  pub outputs : ℤ
  pub to : String
  pub payload : String
  pub label : String
  pub duration_seconds : ℤ
  pub started_by : String

pub data Reason : Type 0 where
  already_running draining legacy_in_send : Reason

-- `fmt.Sprintf("run-%d", seconds)` is `run_label seconds`.
pub data Label : Type 0 where
  send_label : Label
  run_label : ℕ → Label
  custom : String → Label

pub data Outcome : Type 0 where
  sent ended starved : Outcome
  broken : String → Outcome

pub record Controller (F : Type 0) : Type 0 where
  pub running : Bool
  pub is_draining : Bool
  pub cfg : SendRequest F
  pub labels : List Label
  pub gen : ℕ
  pub started_at : ℕ
  pub stopped_at : ℕ
  pub stop_reason : String
  pub attempted : ℕ
  pub succeeded : ℕ
  pub failed : ℕ
  pub backpressure : ℕ
  pub canceled : ℕ
  pub in_flight : ℕ
  pub coins_at_start : ℕ
  pub coins_now : ℕ
  pub waiting_since : ℕ
  pub last_err : Option String

abbrev pub target_arcade : String
target_arcade = "arcade"

unfoldable pub clamp_i : ℤ → ℤ → ℤ → ℤ
clamp_i v lo hi = if ltb_ℤ v lo then lo else if ltb_ℤ hi v then hi else v

-- `atomic.Uint64.Add(1)`
abbrev pub bump : ℕ → ℕ
bump n = (n + 1) % 2 ^ 64

module _ (fl : Floats) where
  open fl use {F, lt, le_zero, one, min_tps, max_tps}

  unfoldable pub clamp_f : F → F → F → F
  clamp_f v lo hi = if lt v lo then lo else if lt hi v then hi else v

  unfoldable pub normalise : SendRequest F → SendRequest F
  unfolding clamp_f clamp_i
  normalise r = record r {
    tps = clamp_f (if le_zero r.tps then one else r.tps) min_tps max_tps;
    workers = clamp_i (if leb_ℤ r.workers (pos 0) then pos 2 else r.workers) (pos 1) (pos 8);
    shape = if str_eq r.shape "" then "opreturn" else r.shape;
    target = target_arcade;
  }

module _ {F : Type 0} where
  -- The guards of `Start`, in their order.
  unfoldable pub refusal : SendRequest F → Controller F → Option Reason
  refusal req c =
      if c.running
      then some already_running
      else if c.is_draining
      then some draining
      else if not (str_eq req.target "") && not (str_eq req.target target_arcade)
      then some legacy_in_send
      else none

  -- The part of `Start` under the lock, once its guards have passed, for a normalised request. What
  -- it resets of the measured rate is Status.begin_meter.
  unfoldable pub begin_run : SendRequest F → ℕ → Controller F → Controller F
  begin_run cfg now c = record c {
    running = true;
    is_draining = false;
    cfg = cfg;
    labels =
        send_label
        ∷ run_label (now / 1_000_000_000)
        ∷ (if str_eq cfg.label "" then [] else custom cfg.label ∷ []);
    gen = c.gen + 1;
    started_at = now;
    stopped_at = 0;
    stop_reason = "";
    attempted = 0;
    succeeded = 0;
    failed = 0;
    backpressure = 0;
    canceled = 0;
    waiting_since = 0;
    last_err = none;
  }

  -- The answer of the coin counter, `none` where it fails or there is none.
  abbrev pub at_start : Option ℕ → Controller F → Controller F
  at_start none c = c
  at_start (some n) c = record c { coins_at_start = n; coins_now = n }

  abbrev pub recount : Option ℕ → Controller F → Controller F
  recount none c = c
  recount (some n) c = record c { coins_now = n }

  -- `Stop`, up to the wait: the second part says whether the production context is cancelled.
  unfoldable pub stop : Controller F → Controller F × Bool
  stop c =
      if c.running
      then (record c { is_draining = true; stop_reason = "stopped" }, true)
      else (c, false)

  -- How `SendOne` comes back: no error, a context that ended, no coin to spend, another error.
  unfoldable pub count : Outcome → ℕ → Controller F → Controller F
  count sent now c = record c { succeeded = bump c.succeeded; waiting_since = 0 }
  count ended now c = record c { canceled = bump c.canceled }
  count starved now c = record c {
    backpressure = bump c.backpressure;
    waiting_since = if c.waiting_since == 0 then now / 1_000_000_000 else c.waiting_since;
  }
  count (broken msg) now c = record c { failed = bump c.failed; last_err = some msg }

  -- What a send publishes: samples of the waits and of the failures.
  unfoldable pub sample : Outcome → Controller F → List Notice
  sample starved c =
      let n = bump c.backpressure in
      if n == 1 || n % 50 == 0
      then record {
        kind = "wallet";
        node = "";
        message = "waiting for spendable coins";
        attrs = ("backpressure", num n) ∷ [];
      }
        ∷ []
      else []
  sample (broken msg) c =
      let n = bump c.failed in
      if leb n 3 || n % 100 == 0
      then record {
        kind = "wallet";
        node = "";
        message = concat "send error: " msg;
        attrs = ("failed", num n) ∷ [];
      }
        ∷ []
      else []
  sample _ c = []

  -- The end of `run` under the lock; `cancelled` is `prodCtx.Err() == context.Canceled`.
  unfoldable pub tear_down : ℕ → Bool → ℕ → Controller F → Controller F
  tear_down gen cancelled now c =
      if c.gen == gen
      then record c {
        running = false;
        is_draining = false;
        stopped_at = now;
        stop_reason =
            if str_eq c.stop_reason ""
            then (if cancelled then "stopped" else "duration")
            else c.stop_reason;
      }
      else c

module _ (fl : Floats) where
  open fl use {F}

  pub data Started : Type 0 where
    ok : Controller F → Started
    err : Reason → Started

  -- `Start`: the run's goroutine is made by the caller of the model.
  unfoldable pub start : SendRequest F → ℕ → Option ℕ → Controller F → Started
  start req now coins c = elim (refusal req c) [
    | some r ↦ err r
    | none ↦ ok (at_start coins (begin_run (normalise fl req) now c))
  ]
