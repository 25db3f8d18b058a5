-- ===== src/Automine/Mining.antt =====
-- What internal/automine/automine.go counts, and what a change of the configuration cannot stop.
use chaos_test.Common.{
  ℕ, ◌+◌, ◌%◌, ◌^◌, ◌≤◌, ◌≡◌, ◌≢◌, refl, ap, ◌∙◌, String, true, false, List, [], ◌∷◌, arith, length,
  eq_iff,
}
use chaos_test.Common.Int.{pos_part}
use chaos_test.Automine.{
  Config, Service, Mined, hashes, failure, clamp, look, advance, fire, mine_once, mines, configure,
}

-- One call of the miner: the node, the answer and the instant of its end.
pub record Attempt : Type 0 where
  pub node : String
  pub answer : Mined
  pub over : ℕ

pub attempts : List Attempt → Service → Service
attempts [] s = s
attempts (a ∷ calls) s = attempts calls (mine_once a.node a.answer a.over s).0

-- The blocks that the answers hold, and the error of the last one.
abbrev pub found : List Attempt → ℕ
found [] = 0
found (a ∷ rest) = elim a.answer [ hashes hs ↦ length hs | failure err ↦ 0 ] + found rest

abbrev pub last_error : String → List Attempt → String
last_error err [] = err
last_error err (a ∷ rest) = last_error (elim a.answer [ hashes hs ↦ "" | failure e ↦ e ]) rest

record Booked (answer : Mined) (s s' : Service) : Type 0 where
  miner : s'.has_miner ≡ true
  runs : s'.runs ≡ (s.runs + 1) % 2 ^ 64
  blocks :
      s'.blocks_mined % 2 ^ 64
      ≡ (s.blocks_mined + elim answer [ hashes hs ↦ length hs | failure err ↦ 0 ]) % 2 ^ 64
  error : s'.last_err ≡ elim answer [ hashes hs ↦ "" | failure e ↦ e ]

booked :
    (node : String) (answer : Mined) (now : ℕ) (s : Service)
    → s.has_miner ≡ true
    → Booked answer s (mine_once node answer now s).0
unfolding mine_once
booked node (hashes hs) now s there = record {
  miner = ground arith;
  runs = ground arith;
  blocks = ground arith;
  error = ground arith;
}
booked node (failure err) now s there = record {
  miner = ground arith;
  runs = ground arith;
  blocks = ground arith;
  error = ground arith;
}

-- After any calls of a miner that is there, `runs` has grown by their number and `blocksMined` by
-- the blocks of the calls that succeeded, both modulo 2^64, and the error shown is that of the last
-- call, none if it succeeded.
pub ledger :
    (calls : List Attempt) (s : Service)
    → s.has_miner ≡ true
    → ((attempts calls s).runs % 2 ^ 64 ≡ (s.runs + length calls) % 2 ^ 64)
      × ((attempts calls s).blocks_mined % 2 ^ 64 ≡ (s.blocks_mined + found calls) % 2 ^ 64)
      × ((attempts calls s).last_err ≡ last_error s.last_err calls)
unfolding attempts
ledger [] s there = (omega arith, omega arith, refl)
ledger (a ∷ calls) s there =
    let s' : Service = (mine_once a.node a.answer a.over s).0 in
    let step : Booked a.answer s s' = booked a.node a.answer a.over s there in
    let rest = ledger calls s' step.miner in
    (
      omega (arith, rest.0, step.runs),
      omega (arith, rest.1, step.blocks),
      rest.2 ∙ ap (λ e. last_error e calls) step.error,
    )

clamp-enabled : (c : Config) → (clamp c).enabled ≡ c.enabled
unfolding clamp
clamp-enabled c = refl

-- A round that has read an enabled configuration mines once its timer fires, also where `Configure`
-- has switched the mining off in between; and the countdown that `Configure` restarted then runs
-- over by the old interval.
pub stale_round :
    (show : ℕ → String) (s : Service) (cfg : Config) (t u v : ℕ) (hs : List String) (over : ℕ)
    → s.has_miner ≡ true
    → s.cfg.enabled ≡ true
    → s.cfg.node ≢ ""
    → cfg.enabled ≡ false
    → u ≤ v
    → v ≤ u + pos_part (clamp cfg).interval
    → let s' = (configure show cfg u s).0 in
      let after = (fire (look t s).plan v (hashes hs) over s').0 in
      (s'.cfg.enabled ≡ false)
      × (after.runs ≡ (s.runs + 1) % 2 ^ 64)
      × (after.next_at ≡ u + pos_part (clamp cfg).interval + pos_part s.cfg.interval)
unfolding fire configure look advance mines mine_once
stale_round show s cfg t u v hs over there on named off first soon = (
  clamp-enabled cfg ∙ off,
  ground (arith, eq_iff s.cfg.node ""),
  ground (arith, eq_iff s.cfg.node ""),
)
