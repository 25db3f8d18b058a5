-- ===== src/Wallet/Send/Status.antt =====
-- internal/walletsvc/send.go, with SendStatus of types.go: the snapshot of a send, and its measured
-- rate. A snapshot reads the fields under the lock first and the counters after it, so it is given
-- the controller at both moments. `per` is the quotient of a number and a time in floats; a time
-- that has passed is a number of nanoseconds.
use chaos_test.Common.{
  ℕ, ◌+◌, ◌-◌, ◌*◌, ◌%◌, ◌^◌, ◌≡◌, String, ℤ, pos, Bool, false, Option, none, some, List, ltb, ◌==◌,
  if◌then◌else◌,
}
use chaos_test.Common.Int.{◌-ℤ◌}
use chaos_test.Wallet.Tracker.{Stamp, blank, rfc3339, second}
use chaos_test.Wallet.Send.{Floats, Controller, Label, target_arcade}
use chaos_test.Wallet.Send.World.{World, Reach}
use chaos_test.Wallet.Send.Lifecycle.{Lives, resting, alive, Reach-Lives}
use chaos_test.Wallet.Send.Counters.{IsNew, settled}

pub record SendStatus (F : Type 0) : Type 0 where
  pub running : Bool
  pub is_draining : Bool
  pub in_flight : ℕ
  pub tps : F
  pub workers : ℤ
  pub shape : String
  pub target : String
  pub labels : List Label
  pub started_by : String
  pub started_at : Stamp
  pub stopped_at : Stamp
  pub elapsed : ℤ
  pub stop_reason : String
  pub now : Stamp
  pub attempted : ℕ
  pub succeeded : ℕ
  pub failed : ℕ
  pub backpressure : ℕ
  pub canceled : ℕ
  pub measured_tps : F
  pub last_error : String
  pub coins_at_start : ℕ
  pub coins_now : ℕ
  pub waiting_funds : Bool
  pub waiting_since : Stamp

-- What `rateMu` guards.
pub record Meter (F : Type 0) : Type 0 where
  pub last_sample_at : ℕ
  pub last_succeeded : ℕ
  pub measured : F

abbrev stamp : ℕ → Stamp
stamp t = if t == 0 then blank else rfc3339 t

text_of : Option String → String
text_of none = ""
text_of (some e) = e

module _ {F : Type 0} where
  -- `Start` resets the meter under the lock, with `begin_run`; the rate is then the float 0.
  unfoldable pub begin_meter : (rate : F) → ℕ → Meter F
  begin_meter rate now = record { last_sample_at = now; last_succeeded = 0; measured = rate }

  -- A tick of `sampleRate`: the difference is one of unsigned 64-bit numbers.
  unfoldable pub measure : (per : ℕ → ℕ → F) → (now done : ℕ) → Meter F → Meter F
  measure per now done m = record {
    last_sample_at = now;
    last_succeeded = done;
    measured =
        if ltb m.last_sample_at now
        then per ((done + 2 ^ 64 - m.last_succeeded) % 2 ^ 64) (now - m.last_sample_at)
        else m.measured;
  }

  -- `Status`: under the lock the controller is `c`, and after it `d`.
  unfoldable pub status : (at now : ℕ) → (c d : Controller F) → Meter F → SendStatus F
  unfolding text_of
  status at now c d m =
      let end = if c.stopped_at == 0 then at else c.stopped_at in
      record {
        running = c.running;
        is_draining = c.is_draining;
        in_flight = d.in_flight;
        tps = c.cfg.tps;
        workers = c.cfg.workers;
        shape = c.cfg.shape;
        target = target_arcade;
        labels = c.labels;
        started_by = c.cfg.started_by;
        started_at = stamp c.started_at;
        stopped_at = if c.started_at == 0 then blank else stamp c.stopped_at;
        elapsed = if c.started_at == 0 then pos 0 else pos end -ℤ pos c.started_at;
        stop_reason = c.stop_reason;
        now = rfc3339 now;
        attempted = d.attempted;
        succeeded = d.succeeded;
        failed = d.failed;
        backpressure = d.backpressure;
        canceled = d.canceled;
        measured_tps = m.measured;
        last_error = text_of d.last_err;
        coins_at_start = d.coins_at_start;
        coins_now = d.coins_now;
        waiting_funds = ltb 0 d.waiting_since;
        waiting_since = if ltb 0 d.waiting_since then rfc3339 (d.waiting_since * second) else blank;
      }

-- What a snapshot that shows no run says of the sends.
abbrev pub IsSettled : {F : Type 0} → SendStatus F → Type 0
IsSettled s =
    (s.is_draining ≡ false)
    × (s.in_flight ≡ 0)
    × (s.attempted % 2 ^ 64 ≡ (s.succeeded + s.failed + s.backpressure + s.canceled) % 2 ^ 64)

not_draining :
    (fl : Floats) (w : World fl) → w.ctl.running ≡ false → Lives fl w → w.ctl.is_draining ≡ false
not_draining fl w off (resting e n d) = d
not_draining fl w off (alive r e y g) = cc

-- In a state reached from a new controller, a snapshot that nothing changes under and that shows no
-- run shows none that drains and no send in flight, and its attempts are its four outcomes, modulo
-- 2^64.
pub status-IsSettled :
    (fl : Floats) {c : Controller fl.F} {w : World fl} (m : Meter fl.F) (at now : ℕ)
    → IsNew fl c
    → Reach fl c w
    → (status at now w.ctl w.ctl m).running ≡ false
    → IsSettled (status at now w.ctl w.ctl m)
unfolding status
status-IsSettled fl {c} {w} m at now new reach off =
    let (sums, none_flies) = settled fl new reach off in
    (not_draining fl w off (Reach-Lives fl new.rests new.stays reach), none_flies, sums)
