-- ===== src/Wallet/Send/Workers.antt =====
-- Sums over the workers of the runs of internal/walletsvc/send.go.
use chaos_test.Common.{ℕ, zero, suc, ◌+◌, ◌≡◌, refl, ap, List, [], ◌∷◌, ◌++◌, arith}
use chaos_test.Wallet.Send.World.{Run, Worker, idle, begun, sending, counted, idles}

-- Workers that have raised `attempted` and not yet counted an outcome.
abbrev pub open_of : List Worker → ℕ
open_of [] = 0
open_of (idle ∷ ws) = open_of ws
open_of (begun ∷ ws) = suc (open_of ws)
open_of (sending ∷ ws) = suc (open_of ws)
open_of (counted ∷ ws) = open_of ws

-- Workers between the two changes of `inFlight`.
abbrev pub flying_of : List Worker → ℕ
flying_of [] = 0
flying_of (idle ∷ ws) = flying_of ws
flying_of (begun ∷ ws) = flying_of ws
flying_of (sending ∷ ws) = suc (flying_of ws)
flying_of (counted ∷ ws) = suc (flying_of ws)

abbrev pub sum_runs : (List Worker → ℕ) → List Run → ℕ
sum_runs f [] = 0
sum_runs f (r ∷ rs) = f r.workers + sum_runs f rs

pub open_of-append : (xs ys : List Worker) → open_of (xs ++ ys) ≡ open_of xs + open_of ys
open_of-append [] ys = omega arith
open_of-append (idle ∷ xs) ys = open_of-append xs ys
open_of-append (begun ∷ xs) ys = omega (arith, open_of-append xs ys)
open_of-append (sending ∷ xs) ys = omega (arith, open_of-append xs ys)
open_of-append (counted ∷ xs) ys = open_of-append xs ys

pub flying_of-append : (xs ys : List Worker) → flying_of (xs ++ ys) ≡ flying_of xs + flying_of ys
flying_of-append [] ys = omega arith
flying_of-append (idle ∷ xs) ys = flying_of-append xs ys
flying_of-append (begun ∷ xs) ys = flying_of-append xs ys
flying_of-append (sending ∷ xs) ys = omega (arith, flying_of-append xs ys)
flying_of-append (counted ∷ xs) ys = omega (arith, flying_of-append xs ys)

pub none_busy : (n : ℕ) → (open_of (idles n) ≡ 0) × (flying_of (idles n) ≡ 0)
unfolding idles
none_busy zero = (refl, refl)
none_busy (suc n) = none_busy n

pub sum_runs-append :
    (f : List Worker → ℕ) (xs ys : List Run) → sum_runs f (xs ++ ys) ≡ sum_runs f xs + sum_runs f ys
sum_runs-append f [] ys = omega arith
sum_runs-append f (x ∷ xs) ys = omega (arith, sum_runs-append f xs ys)

-- One run's workers change.
pub sum_runs_at :
    (f : List Worker → ℕ) (runs before : List Run) (r r' : Run) (after : List Run)
    → runs ≡ before ++ r ∷ after
    → sum_runs f (before ++ r' ∷ after) + f r.workers ≡ sum_runs f runs + f r'.workers
sum_runs_at f runs before r r' after at = omega (
  arith,
  ap (sum_runs f) at,
  sum_runs-append f before (r ∷ after),
  sum_runs-append f before (r' ∷ after),
)

-- What one worker's move from `old` to `new` does to the two sums.
pub worker_at :
    (runs before : List Run) (r r' : Run) (after : List Run) (ws us : List Worker)
    (old new : Worker)
    → runs ≡ before ++ r ∷ after
    → r.workers ≡ ws ++ old ∷ us
    → r'.workers ≡ ws ++ new ∷ us
    → (sum_runs open_of (before ++ r' ∷ after) + open_of (old ∷ us)
        ≡ sum_runs open_of runs + open_of (new ∷ us))
      × (sum_runs flying_of (before ++ r' ∷ after) + flying_of (old ∷ us)
          ≡ sum_runs flying_of runs + flying_of (new ∷ us))
worker_at runs before r r' after ws us old new at was is = (
  omega (
    arith,
    sum_runs_at open_of runs before r r' after at,
    ap open_of was,
    ap open_of is,
    open_of-append ws (old ∷ us),
    open_of-append ws (new ∷ us),
  ),
  omega (
    arith,
    sum_runs_at flying_of runs before r r' after at,
    ap flying_of was,
    ap flying_of is,
    flying_of-append ws (old ∷ us),
    flying_of-append ws (new ∷ us),
  ),
)
