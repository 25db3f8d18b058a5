-- ===== src/Wallet/Send/Examples.antt =====
-- Runs of the sustained send of internal/walletsvc/send.go at concrete inputs. The rates are tenths.
use chaos_test.Common.{ℕ, ◌+◌, ◌≡◌, refl, false, pos, none, some, [], ◌∷◌, arith, ltb, ◌==◌}
use chaos_test.Wallet.Send.{
  Floats, SendRequest, Controller, sent, normalise, start, begin_run, refusal, at_start, count,
  tear_down, clamp_f, clamp_i,
}
use chaos_test.Common.Int.{◌-ℤ◌, ◌+ℤ◌}
use chaos_test.Wallet.Send.Status.{Meter, begin_meter, measure, status, IsSettled, status-IsSettled}
use chaos_test.Wallet.Send.World.{
  World, Run, Reach, here, next, starts, produces, takes, sends, counts, returns, closes, finishes,
  closed, producing, idle, begun, sending, counted, idles,
}
use chaos_test.Wallet.Send.Lifecycle.{Lives, Reach-Lives}
use chaos_test.Wallet.Send.Counters.{Tally, IsNew, Reach-Tally}

abbrev tenths : Floats
tenths = record { F = ℕ; lt = ltb; le_zero = λ n. n == 0; one = 10; min_tps = 1; max_tps = 5000 }

abbrev request : SendRequest ℕ
request = record {
  tps = 0;
  workers = pos 1;
  shape = "";
  target = "arcade";
  satoshis = 1000;
  outputs = pos 1;
  to = "";
  payload = "";
  label = "";
  duration_seconds = pos 0;
  started_by = "test";
}

abbrev fresh : Controller ℕ
fresh = record {
  running = false;
  is_draining = false;
  cfg = request;
  labels = [];
  gen = 0;
  started_at = 0;
  stopped_at = 0;
  stop_reason = "";
  attempted = 0;
  succeeded = 0;
  failed = 0;
  backpressure = 0;
  canceled = 0;
  in_flight = 0;
  coins_at_start = 0;
  coins_now = 0;
  waiting_since = 0;
  last_err = none;
}

abbrev started : Controller ℕ
started = at_start (some 3) (begin_run (normalise tenths request) 7 fresh)

-- One worker, with a job in the channel.
abbrev queued : Run
queued = record { run_gen = 1; queued = 1; workers = idle ∷ []; phase = producing }

abbrev one_sent : Controller ℕ
one_sent = record started { attempted = 1; succeeded = 1 }

abbrev under_way : World tenths
under_way = record { ctl = started; runs = queued ∷ [] }

running : Reach tenths fresh under_way
unfolding start refusal begin_run normalise clamp_f clamp_i idles
running =
    next (next here (starts request 7 (some 3) started refl refl))
      (produces [] (record queued { queued = 0 }) [] refl refl (omega arith) refl)

abbrev after : World tenths
after = record { ctl = one_sent; runs = record queued { queued = 0 } ∷ [] }

one_round : Reach tenths fresh after
unfolding begin_run normalise clamp_f clamp_i count
one_round =
    next
      (next
        (next (next running (takes [] queued [] [] [] refl refl (omega arith) refl))
          (sends [] (record queued { queued = 0; workers = begun ∷ [] }) [] [] [] refl refl refl))
        (counts sent 9 [] (record queued { queued = 0; workers = sending ∷ [] }) [] [] [] refl refl
          refl))
      (returns none [] (record queued { queued = 0; workers = counted ∷ [] }) [] [] [] refl refl
        refl)

abbrev over : World tenths
over = record { ctl = tear_down 1 false 20 one_sent; runs = [] }

finished : Reach tenths fresh over
unfolding idles
finished = next (next one_round (closes [] (record queued { queued = 0 }) [] refl refl)) (
    finishes false 20 [] (record queued { queued = 0; phase = closed }) [] refl refl refl refl refl)

Reach-Lives_example : Lives tenths under_way
Reach-Lives_example = Reach-Lives tenths refl refl running

abbrev new : IsNew tenths fresh
new = record {
  rests = refl;
  stays = refl;
  tried = refl;
  took = refl;
  lost = refl;
  waited = refl;
  left = refl;
  grounded = refl;
}

Reach-Tally_example : Tally tenths after
Reach-Tally_example = Reach-Tally tenths new one_round

abbrev meter : Meter ℕ
meter = record { last_sample_at = 2; last_succeeded = 1; measured = 5 }

-- A second tick at one instant keeps the rate, and no time is divided by.
same_instant : measure ◌+◌ 2 4 meter ≡ record meter { last_succeeded = 4 }
unfolding measure
same_instant = refl

-- A send that is over shows the time that it took, however much later it is looked at.
elapsed_stays : (status 90 91 over.ctl over.ctl meter).elapsed ≡ pos 13
unfolding status begin_run tear_down ◌-ℤ◌ ◌+ℤ◌
elapsed_stays = refl

shows_no_run : (status 90 91 over.ctl over.ctl meter).running ≡ false
unfolding status tear_down begin_run
shows_no_run = refl

status-IsSettled_example : IsSettled (status 90 91 over.ctl over.ctl meter)
status-IsSettled_example = status-IsSettled tenths meter 90 91 new finished shows_no_run

-- The first tick of a run counts from its start.
first_tick :
    measure ◌+◌ 12 4 (begin_meter 0 7)
    ≡ record { last_sample_at = 12; last_succeeded = 4; measured = 9 }
unfolding measure begin_meter
first_tick = refl
