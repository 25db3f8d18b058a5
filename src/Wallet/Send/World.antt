-- ===== src/Wallet/Send/World.antt =====
-- internal/walletsvc/send.go under concurrency: any interleaving of callers of `Start` and `Stop`,
-- of the goroutine of each run, and of its workers. A step is an atomic operation or a part under
-- the lock.
use chaos_test.Common.{
  ℕ, zero, suc, ◌+◌, ◌-◌, ◌<◌, ◌≡◌, Bool, ℤ, pos, negsuc, Option, List, [], ◌∷◌, ◌++◌, length,
}
use chaos_test.Wallet.Send.{
  Floats, SendRequest, Controller, Outcome, ok, start, stop, count, recount, tear_down, bump,
}

-- Where a worker stands in `sendOne`: waiting for a job; `attempted` raised; `inFlight` raised and
-- the transaction under way; the outcome counted.
pub data Worker : Type 0 where
  idle begun sending counted : Worker

-- The jobs channel is open; or production has stopped and the channel is closed.
pub data Phase : Type 0 where
  producing closed : Phase

pub record Run : Type 0 where
  pub run_gen : ℕ
  pub queued : ℕ
  pub workers : List Worker
  pub phase : Phase

abbrev pub magnitude : ℤ → ℕ
magnitude (pos n) = n
magnitude (negsuc n) = 0

unfoldable pub idles : ℕ → List Worker
idles zero = []
idles (suc n) = idle ∷ idles n

module _ (fl : Floats) where
  open fl use {F}

  pub record World : Type 0 where
    pub ctl : Controller F
    pub runs : List Run

  abbrev pub new_run : Controller F → Run
  new_run c = record {
    run_gen = c.gen;
    queued = 0;
    workers = idles (magnitude c.cfg.workers);
    phase = producing;
  }

  pub data Step (w v : World) : Type 0 where
    starts :
        (req : SendRequest F) (now : ℕ) (coins : Option ℕ) (c : Controller F)
        → start fl req now coins w.ctl ≡ ok c
        → v ≡ record { ctl = c; runs = w.runs ++ new_run c ∷ [] }
        → Step w v
    stops : v ≡ record w { ctl = (stop w.ctl).0 } → Step w v
    produces :
        (before : List Run) (r : Run) (after : List Run)
        → w.runs ≡ before ++ r ∷ after
        → r.phase ≡ producing
        → r.queued < length r.workers
        → v ≡ record w { runs = before ++ record r { queued = r.queued + 1 } ∷ after }
        → Step w v
    closes :
        (before : List Run) (r : Run) (after : List Run)
        → w.runs ≡ before ++ r ∷ after
        → v ≡ record w { runs = before ++ record r { phase = closed } ∷ after }
        → Step w v
    takes :
        (before : List Run) (r : Run) (after : List Run) (ws : List Worker) (us : List Worker)
        → w.runs ≡ before ++ r ∷ after
        → r.workers ≡ ws ++ idle ∷ us
        → 0 < r.queued
        → v ≡ record {
          ctl = record w.ctl { attempted = bump w.ctl.attempted };
          runs = before ++ record r { queued = r.queued - 1; workers = ws ++ begun ∷ us } ∷ after;
        }
        → Step w v
    sends :
        (before : List Run) (r : Run) (after : List Run) (ws : List Worker) (us : List Worker)
        → w.runs ≡ before ++ r ∷ after
        → r.workers ≡ ws ++ begun ∷ us
        → v ≡ record {
          ctl = record w.ctl { in_flight = w.ctl.in_flight + 1 };
          runs = before ++ record r { workers = ws ++ sending ∷ us } ∷ after;
        }
        → Step w v
    counts :
        (outcome : Outcome) (now : ℕ)
        → (before : List Run) (r : Run) (after : List Run) (ws : List Worker) (us : List Worker)
        → w.runs ≡ before ++ r ∷ after
        → r.workers ≡ ws ++ sending ∷ us
        → v ≡ record {
          ctl = count outcome now w.ctl;
          runs = before ++ record r { workers = ws ++ counted ∷ us } ∷ after;
        }
        → Step w v
    returns :
        (coins : Option ℕ)
        → (before : List Run) (r : Run) (after : List Run) (ws : List Worker) (us : List Worker)
        → w.runs ≡ before ++ r ∷ after
        → r.workers ≡ ws ++ counted ∷ us
        → v ≡ record {
          ctl = recount coins (record w.ctl { in_flight = w.ctl.in_flight - 1 });
          runs = before ++ record r { workers = ws ++ idle ∷ us } ∷ after;
        }
        → Step w v
    finishes :
        (cancelled : Bool) (now : ℕ) (before : List Run) (r : Run) (after : List Run)
        → w.runs ≡ before ++ r ∷ after
        → r.phase ≡ closed
        → r.queued ≡ 0
        → r.workers ≡ idles (length r.workers)
        → v ≡ record { ctl = tear_down r.run_gen cancelled now w.ctl; runs = before ++ after }
        → Step w v

  -- From a controller that `NewController` made and that has not run.
  pub data Reach (c : Controller F) : World → Type 0 where
    here : Reach c (record { ctl = c; runs = [] })
    next : {w v : World} → Reach c w → Step w v → Reach c v
