-- ===== src/Wallet/Send/Lifecycle.antt =====
-- internal/walletsvc/send.go: one run at a time, and why `Start` refuses.
use chaos_test.Common.{
  ℕ, ◌-◌, ◌||◌, ◌≡◌, ◌≢◌, refl, sym, ◌∙◌, Bool, true, false, Option, none, some, List, [], ◌∷◌,
  ◌++◌, arith, if◌then◌else◌, str_eq,
}
use chaos_test.Wallet.Send.{
  Floats, SendRequest, Controller, Outcome, sent, ended, starved, broken, ok, already_running,
  legacy_in_send, start, stop, count, recount, tear_down, refusal, begin_run,
}
use chaos_test.Wallet.Send.World.{
  World, Run, Step, starts, stops, produces, closes, takes, sends, counts, returns, finishes, Reach,
  here, next, new_run,
}

module _ (fl : Floats) where
  open fl use {F}

  -- No run, and the controller says so; or one run, which carries the controller's number.
  pub data Lives (w : World fl) : Type 0 where
    resting : w.runs ≡ [] → w.ctl.running ≡ false → w.ctl.is_draining ≡ false → Lives w
    alive : (r : Run) → w.runs ≡ r ∷ [] → w.ctl.running ≡ true → r.run_gen ≡ w.ctl.gen → Lives w

  -- A run that stands in a list of one run.
  only :
      (before : List Run) (r : Run) (after : List Run) (s : Run)
      → before ++ r ∷ after ≡ s ∷ []
      → (before ≡ []) × (r ≡ s) × (after ≡ [])
  only [] r after s h = ground arith
  only (x ∷ []) r after s h = ground arith
  only (x ∷ y ∷ before) r after s h = ground arith

  none_of : (before : List Run) (r : Run) (after : List Run) → before ++ r ∷ after ≢ []
  none_of [] r after h = cc
  none_of (x ∷ before) r after h = cc

  -- A step of a run or of a worker.
  moves :
      {w v : World fl} (before : List Run) (r r' : Run) (after : List Run)
      → w.runs ≡ before ++ r ∷ after
      → r'.run_gen ≡ r.run_gen
      → v.runs ≡ before ++ r' ∷ after
      → v.ctl.running ≡ w.ctl.running
      → v.ctl.gen ≡ w.ctl.gen
      → Lives w
      → Lives v
  moves before r r' after at same to running gen (resting e n d) =
      absurd (none_of before r after (sym at ∙ e))
  moves before r r' after at same to running gen (alive s e y g) =
      let o : (before ≡ []) × (r ≡ s) × (after ≡ []) = only before r after s (sym at ∙ e) in
      alive r' (ground arith) (running ∙ y) (ground arith)

  pub start_lives :
      (req : SendRequest F) (now : ℕ) (coins : Option ℕ) (c d : Controller F)
      → start fl req now coins c ≡ ok d
      → (c.running ≡ false) × (d.running ≡ true)
  unfolding start refusal begin_run
  start_lives req now none c d h = ground arith
  start_lives req now (some n) c d h = ground arith

  count_keeps :
      (o : Outcome) (now : ℕ) (c : Controller F)
      → ((count o now c).running ≡ c.running) × ((count o now c).gen ≡ c.gen)
  unfolding count
  count_keeps sent now c = (refl, refl)
  count_keeps ended now c = (refl, refl)
  count_keeps starved now c = (refl, refl)
  count_keeps (broken msg) now c = (refl, refl)

  recount_keeps :
      (coins : Option ℕ) (c : Controller F)
      → ((recount coins c).running ≡ c.running) × ((recount coins c).gen ≡ c.gen)
  recount_keeps none c = (refl, refl)
  recount_keeps (some n) c = (refl, refl)

  starts_alone :
      {w : World fl} (c : Controller F)
      → w.ctl.running ≡ false
      → c.running ≡ true
      → Lives w
      → Lives (record { ctl = c; runs = w.runs ++ new_run fl c ∷ [] })
  starts_alone c idle now (resting e n d) = alive (new_run fl c) (ground arith) now refl
  starts_alone c idle now (alive r e y g) = cc

  stop-Lives : {w : World fl} → Lives w → Lives (record w { ctl = (stop w.ctl).0 })
  unfolding stop
  stop-Lives (resting e n d) = resting e (ground arith) (ground arith)
  stop-Lives (alive r e y g) = alive r e (ground arith) (ground arith)

  finish-Lives :
      {w : World fl} (cancelled : Bool) (now : ℕ) (before : List Run) (r : Run) (after : List Run)
      → w.runs ≡ before ++ r ∷ after
      → Lives w
      → Lives (record { ctl = tear_down r.run_gen cancelled now w.ctl; runs = before ++ after })
  unfolding tear_down
  finish-Lives cancelled now before r after at (resting e n d) =
      absurd (none_of before r after (sym at ∙ e))
  finish-Lives cancelled now before r after at (alive s e y g) =
      let o : (before ≡ []) × (r ≡ s) × (after ≡ []) = only before r after s (sym at ∙ e) in
      resting (ground arith) (ground arith) (ground arith)

  Step-Lives : {w v : World fl} → Lives w → Step fl w v → Lives v
  Step-Lives {w} l (starts req now coins c s e) =
      let p : (w.ctl.running ≡ false) × (c.running ≡ true) = start_lives req now coins w.ctl c s in
      rw e (starts_alone c p.0 p.1 l)
  Step-Lives l (stops e) = rw e (stop-Lives l)
  Step-Lives l (produces before r after at p q e) =
      rw e (moves before r _ after at refl refl refl refl l)
  Step-Lives l (closes before r after at e) = rw e (moves before r _ after at refl refl refl refl l)
  Step-Lives l (takes before r after ws us at h q e) =
      rw e (moves before r _ after at refl refl refl refl l)
  Step-Lives l (sends before r after ws us at h e) =
      rw e (moves before r _ after at refl refl refl refl l)
  Step-Lives {w} l (counts o now before r after ws us at h e) =
      let k : ((count o now w.ctl).running ≡ w.ctl.running)
          × ((count o now w.ctl).gen ≡ w.ctl.gen) =
        count_keeps o now w.ctl in
      rw e (moves before r _ after at refl refl k.0 k.1 l)
  Step-Lives {w} l (returns coins before r after ws us at h e) =
      let c : Controller F = record w.ctl { in_flight = w.ctl.in_flight - 1 } in
      let k : ((recount coins c).running ≡ c.running) × ((recount coins c).gen ≡ c.gen) =
        recount_keeps coins c in
      rw e (moves before r _ after at refl refl k.0 k.1 l)
  Step-Lives l (finishes cancelled now before r after at p q i e) =
      rw e (finish-Lives cancelled now before r after at l)

  -- However calls, runs and workers interleave, there is one run exactly while the controller says
  -- that it is running, and none otherwise; and that run carries the controller's number, so that
  -- the comparison of numbers at the end of `run` never fails.
  pub Reach-Lives :
      {c : Controller F} {w : World fl}
      → c.running ≡ false
      → c.is_draining ≡ false
      → Reach fl c w
      → Lives w
  Reach-Lives n d here = resting refl n d
  Reach-Lives n d (next r s) = Step-Lives (Reach-Lives n d r) s

  from_Lives :
      {w : World fl} (req : SendRequest F)
      → Lives w
      → refusal req w.ctl ≡ (
          if w.ctl.running
          then some already_running
          else if str_eq req.target "" || str_eq req.target "arcade"
          then none
          else some legacy_in_send)
  unfolding refusal
  from_Lives req (resting e n d) = ground arith
  from_Lives req (alive r e y g) = ground arith

  -- The reason that a caller of `Start` gets in a reachable state: the one for a run that goes on,
  -- also while that run drains, then the one for a target that is not arcade. The reason for a send
  -- that is draining is never given.
  pub refusal_reached :
      {c : Controller F} {w : World fl} (req : SendRequest F)
      → c.running ≡ false
      → c.is_draining ≡ false
      → Reach fl c w
      → refusal req w.ctl ≡ (
          if w.ctl.running
          then some already_running
          else if str_eq req.target "" || str_eq req.target "arcade"
          then none
          else some legacy_in_send)
  unfolding refusal
  refusal_reached req n d reach = from_Lives req (Reach-Lives n d reach)
