-- ===== src/Wallet/Send/Counters.antt =====
-- internal/walletsvc/send.go: what the counters add up to, in every interleaving.
use chaos_test.Common.{
  ℕ, ◌+◌, ◌-◌, ◌%◌, ◌^◌, ◌≡◌, refl, ap, Bool, false, Option, none, some, List, [], ◌∷◌, ◌++◌, arith,
  length,
}
use chaos_test.Wallet.Send.{
  Floats, SendRequest, Controller, Outcome, sent, ended, starved, broken, ok, start, stop, count,
  recount, tear_down, refusal, begin_run,
}
use chaos_test.Wallet.Send.World.{
  World, Run, idle, begun, sending, counted, idles, Step, starts, stops, produces, closes, takes,
  sends, counts, returns, finishes, Reach, here, next, new_run, magnitude,
}
use chaos_test.Wallet.Send.Lifecycle.{Lives, resting, alive, Reach-Lives, start_lives}
use chaos_test.Wallet.Send.Workers.{
  open_of, flying_of, sum_runs, none_busy, sum_runs-append, sum_runs_at, worker_at,
}

module _ (fl : Floats) where
  open fl use {F}

  pub record Tally (w : World fl) : Type 0 where
    pub outcomes :
        w.ctl.attempted % 2 ^ 64
        ≡ (w.ctl.succeeded
            + w.ctl.failed
            + w.ctl.backpressure
            + w.ctl.canceled
            + sum_runs open_of w.runs)
          % 2 ^ 64
    pub flying : w.ctl.in_flight ≡ sum_runs flying_of w.runs

  start_tally :
      (req : SendRequest F) (now : ℕ) (coins : Option ℕ) (c d : Controller F)
      → start fl req now coins c ≡ ok d
      → (d.attempted ≡ 0)
        × (d.succeeded ≡ 0)
        × (d.failed ≡ 0)
        × (d.backpressure ≡ 0)
        × (d.canceled ≡ 0)
        × (d.in_flight ≡ c.in_flight)
  unfolding start refusal begin_run
  start_tally req now none c d h = ground arith
  start_tally req now (some n) c d h = ground arith

  starts-Tally :
      {w : World fl} (c : Controller F)
      → w.ctl.running ≡ false
      → (c.attempted ≡ 0)
        × (c.succeeded ≡ 0)
        × (c.failed ≡ 0)
        × (c.backpressure ≡ 0)
        × (c.canceled ≡ 0)
        × (c.in_flight ≡ w.ctl.in_flight)
      → Lives fl w
      → Tally w
      → Tally (record { ctl = c; runs = w.runs ++ new_run fl c ∷ [] })
  starts-Tally {w} c still zeros (resting e n d) t =
      let i : (open_of (idles (magnitude c.cfg.workers)) ≡ 0)
          × (flying_of (idles (magnitude c.cfg.workers)) ≡ 0) =
        none_busy (magnitude c.cfg.workers) in
      record {
        outcomes = omega (
          arith,
          zeros.0,
          zeros.1,
          zeros.2,
          zeros.3,
          zeros.4,
          i.0,
          ap (sum_runs open_of) e,
          sum_runs-append open_of w.runs (new_run fl c ∷ []),
        );
        flying = omega (
          arith,
          zeros.5,
          t.flying,
          i.1,
          ap (sum_runs flying_of) e,
          sum_runs-append flying_of w.runs (new_run fl c ∷ []),
        );
      }
  starts-Tally c still zeros (alive r e y g) t = cc

  count-Tally :
      {w : World fl} (o : Outcome) (now : ℕ) (runs : List Run)
      → sum_runs open_of runs + 1 ≡ sum_runs open_of w.runs
      → sum_runs flying_of runs ≡ sum_runs flying_of w.runs
      → Tally w
      → Tally (record { ctl = count o now w.ctl; runs = runs })
  unfolding count
  count-Tally sent now runs p q t = ground arith
  count-Tally ended now runs p q t = ground arith
  count-Tally starved now runs p q t = ground arith
  count-Tally (broken msg) now runs p q t = ground arith

  recount-Tally :
      {w : World fl} (coins : Option ℕ) → Tally w → Tally (record w { ctl = recount coins w.ctl })
  recount-Tally none t = t
  recount-Tally (some n) t = record { outcomes = t.outcomes; flying = t.flying }

  still :
      {w : World fl} (before : List Run) (r r' : Run) (after : List Run)
      → w.runs ≡ before ++ r ∷ after
      → r'.workers ≡ r.workers
      → Tally w
      → Tally (record w { runs = before ++ r' ∷ after })
  still {w} before r r' after at same t = record {
    outcomes =
        omega (arith, t.outcomes, sum_runs_at open_of w.runs before r r' after at, ap open_of same);
    flying =
        omega
          (arith, t.flying, sum_runs_at flying_of w.runs before r r' after at, ap flying_of same);
  }

  gone :
      {w : World fl} (cancelled : Bool) (now : ℕ) (before : List Run) (r : Run) (after : List Run)
      → w.runs ≡ before ++ r ∷ after
      → r.workers ≡ idles (length r.workers)
      → Tally w
      → Tally (record { ctl = tear_down r.run_gen cancelled now w.ctl; runs = before ++ after })
  unfolding tear_down
  gone {w} cancelled now before r after at free t =
      let i : (open_of (idles (length r.workers)) ≡ 0)
          × (flying_of (idles (length r.workers)) ≡ 0) =
        none_busy (length r.workers) in
      record {
        outcomes = ground (
          arith,
          t.outcomes,
          ap (sum_runs open_of) at,
          sum_runs-append open_of before (r ∷ after),
          sum_runs-append open_of before after,
          ap open_of free,
          i.0,
        );
        flying = ground (
          arith,
          t.flying,
          ap (sum_runs flying_of) at,
          sum_runs-append flying_of before (r ∷ after),
          sum_runs-append flying_of before after,
          ap flying_of free,
          i.1,
        );
      }

  Step-Tally : {w v : World fl} → Lives fl w → Tally w → Step fl w v → Tally v
  unfolding stop
  Step-Tally {w} l t (starts req now coins c s e) = rw e (
      starts-Tally c (start_lives fl req now coins w.ctl c s).0
        (start_tally req now coins w.ctl c s) l t)
  Step-Tally l t (stops e) = rw e (record { outcomes = ground arith; flying = ground arith })
  Step-Tally l t (produces before r after at p q e) = rw e (still before r _ after at refl t)
  Step-Tally l t (closes before r after at e) = rw e (still before r _ after at refl t)
  Step-Tally {w} l t (takes before r after ws us at h q e) =
      let m =
        worker_at w.runs before r (record r { queued = r.queued - 1; workers = ws ++ begun ∷ us })
          after ws us idle begun at h refl in
      rw e (record {
        outcomes = omega (arith, t.outcomes, m.0);
        flying = omega (arith, t.flying, m.1);
      })
  Step-Tally {w} l t (sends before r after ws us at h e) =
      let m =
        worker_at w.runs before r (record r { workers = ws ++ sending ∷ us }) after ws us begun
          sending at h refl in
      rw e (record {
        outcomes = omega (arith, t.outcomes, m.0);
        flying = omega (arith, t.flying, m.1);
      })
  Step-Tally {w} l t (counts o now before r after ws us at h e) =
      let m =
        worker_at w.runs before r (record r { workers = ws ++ counted ∷ us }) after ws us sending
          counted at h refl in
      rw e (count-Tally o now _ (omega (arith, m.0)) (omega (arith, m.1)) t)
  Step-Tally {w} l t (returns coins before r after ws us at h e) =
      let m =
        worker_at w.runs before r (record r { workers = ws ++ idle ∷ us }) after ws us counted idle
          at h refl in
      rw e (
        recount-Tally coins (record {
          outcomes = omega (arith, t.outcomes, m.0);
          flying = omega (arith, t.flying, m.1);
        }))
  Step-Tally l t (finishes cancelled now before r after at p q i e) =
      rw e (gone cancelled now before r after at i t)

  -- A controller that has not run.
  pub record IsNew (c : Controller F) : Type 0 where
    pub rests : c.running ≡ false
    pub stays : c.is_draining ≡ false
    pub tried : c.attempted ≡ 0
    pub took : c.succeeded ≡ 0
    pub lost : c.failed ≡ 0
    pub waited : c.backpressure ≡ 0
    pub left : c.canceled ≡ 0
    pub grounded : c.in_flight ≡ 0

  -- In every reachable state, modulo 2^64, the attempts are the successes, failures, waits and
  -- cancellations with the workers whose outcome is still open, and `inFlight` is exactly the number
  -- of workers between its two changes; it never falls below zero.
  pub Reach-Tally : {c : Controller F} {w : World fl} → IsNew c → Reach fl c w → Tally w
  Reach-Tally n here = record {
    outcomes = omega (arith, n.tried, n.took, n.lost, n.waited, n.left);
    flying = n.grounded;
  }
  Reach-Tally n (next r s) = Step-Tally (Reach-Lives fl n.rests n.stays r) (Reach-Tally n r) s

  settled-Lives :
      {w : World fl}
      → w.ctl.running ≡ false
      → Lives fl w
      → Tally w
      → (w.ctl.attempted % 2 ^ 64
          ≡ (w.ctl.succeeded + w.ctl.failed + w.ctl.backpressure + w.ctl.canceled) % 2 ^ 64)
        × (w.ctl.in_flight ≡ 0)
  settled-Lives {w} off (resting e n d) t =
      let zero_open : sum_runs open_of w.runs ≡ 0 = ap (sum_runs open_of) e in
      let zero_flying : sum_runs flying_of w.runs ≡ 0 = ap (sum_runs flying_of) e in
      (omega (arith, t.outcomes), omega (arith, t.flying))
  settled-Lives off (alive r e y g) t = cc

  -- Once a run is over, every attempt is accounted for by exactly one of the four outcomes, and no
  -- send is in flight.
  pub settled :
      {c : Controller F} {w : World fl}
      → IsNew c
      → Reach fl c w
      → w.ctl.running ≡ false
      → (w.ctl.attempted % 2 ^ 64
          ≡ (w.ctl.succeeded + w.ctl.failed + w.ctl.backpressure + w.ctl.canceled) % 2 ^ 64)
        × (w.ctl.in_flight ≡ 0)
  settled n reach off =
      settled-Lives off (Reach-Lives fl n.rests n.stays reach) (Reach-Tally n reach)
