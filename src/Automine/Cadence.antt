-- ===== src/Automine/Cadence.antt =====
-- The schedule of internal/automine/automine.go does not drift.
use chaos_test.Common.{ℕ, String, ◌+◌, ◌*◌, ◌≤◌, ◌≡◌, List, [], ◌∷◌, arith, length}
use chaos_test.Common.Int.{pos_part}
use chaos_test.Automine.{Config, Service, Mined, later, advance, fire, mine_once}

-- After a round fires the next instant is not in the past and at most one interval ahead of the
-- later of the old instant and now; it is exactly one interval after the old one where that is not
-- in the past. `plan` is what the round has read, at an instant that has come.
pub advance_bounds :
    (plan : Config) (now : ℕ) (s : Service)
    → s.next_at ≤ now
    → (now ≤ (advance plan now s).next_at)
      × ((advance plan now s).next_at ≤ later now plan.interval)
      × (now ≤ later s.next_at plan.interval
          → (advance plan now s).next_at ≡ later s.next_at plan.interval)
unfolding advance
advance_bounds plan now s due = (ground arith, ground arith, λ h. ground arith)

advance_step :
    (plan : Config) (now : ℕ) (s : Service)
    → now ≤ s.next_at + pos_part plan.interval
    → (advance plan now s).next_at ≡ s.next_at + pos_part plan.interval
unfolding advance
advance_step plan now s h = ground arith

mine_once-next_at :
    (node : String) (answer : Mined) (now : ℕ) (s : Service)
    → (mine_once node answer now s).0.next_at ≡ s.next_at
unfolding mine_once
mine_once-next_at node (Mined.hashes hs) now s = ground arith
mine_once-next_at node (Mined.failure err) now s = ground arith

fire-next_at :
    (plan : Config) (now : ℕ) (answer : Mined) (done : ℕ) (s : Service)
    → (fire plan now answer done s).0.next_at ≡ (advance plan now s).next_at
unfolding fire
fire-next_at plan now answer done s =
    ground (arith, mine_once-next_at plan.node answer done (advance plan now s))

-- One firing: the instant, the miner's answer, and the instant at which mining is over.
pub record Firing : Type 0 where
  pub at : ℕ
  pub answer : Mined
  pub over : ℕ

pub rounds : Config → List Firing → Service → Service
rounds plan [] s = s
rounds plan (f ∷ fs) s = rounds plan fs (fire plan f.at f.answer f.over s).0

-- Each firing comes at most an interval after it is due.
abbrev pub OnTime : ℕ → ℕ → List Firing → Type 0
OnTime d due [] = Unit
OnTime d due (f ∷ fs) = (f.at ≤ due + d) × OnTime d (due + d) fs

-- If no round comes more than an interval late, the schedule is a metronome: after n rounds, whatever
-- was mined and however long it took, the next instant is the first one plus n intervals.
pub cadence :
    (plan : Config) (fs : List Firing) (s : Service)
    → OnTime (pos_part plan.interval) s.next_at fs
    → (rounds plan fs s).next_at ≡ s.next_at + length fs * pos_part plan.interval
unfolding rounds
cadence plan [] s h = omega arith
cadence plan (f ∷ fs) s h =
    let s' : Service = (fire plan f.at f.answer f.over s).0 in
    let d : ℕ = pos_part plan.interval in
    let next : s'.next_at ≡ s.next_at + d =
      ground (arith, fire-next_at plan f.at f.answer f.over s, advance_step plan f.at s h.0) in
    omega (arith, cadence plan fs s' (rw next h.1), next)
