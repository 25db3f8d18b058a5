-- ===== src/Observe/Bus/Numbers.antt =====
-- The numbers that `Publish` of internal/observe/bus.go draws: none is lost and none is given twice.
use chaos_test.Common.{ℕ, ◌+◌, ◌≡◌, ap, List, [], ◌∷◌, ◌++◌, arith, leb, ◌==◌, if◌then◌else◌}
use chaos_test.Observe.Bus.{Event, new_bus, draw, append, subscribe, unsubscribe}
use chaos_test.Observe.Bus.World.{
  World, Step, draws, appends, subscribes, unsubscribes, receives, Reach, here, next,
}

-- How many events of a list carry a number.
abbrev pub count_id : ℕ → List Event → ℕ
count_id n [] = 0
count_id n (e ∷ es) = (if e.id == n then 1 else 0) + count_id n es

count_id-append :
    (n : ℕ) (xs ys : List Event) → count_id n (xs ++ ys) ≡ count_id n xs + count_id n ys
count_id-append n [] ys = omega arith
count_id-append n (x ∷ xs) ys = omega (arith, count_id-append n xs ys)

abbrev drawn : ℕ → ℕ → ℕ
drawn seq n = if leb 1 n then (if leb n seq then 1 else 0) else 0

abbrev pub Once : World → Type 0
Once w = (n : ℕ) → count_id n w.log + count_id n w.held ≡ drawn w.bus.seq n

Step-Once : {w v : World} → Once w → Step w v → Once v
unfolding draw append subscribe unsubscribe
Step-Once {w} h (draws now kind node msg attrs e) = rw e λ n. ground (
  arith,
  h n,
  count_id-append n w.held (
      record {
        id = w.bus.seq + 1;
        time = now;
        kind = kind;
        node = node;
        message = msg;
        attrs = attrs;
      }
      ∷ []),
)
Step-Once {w} h (appends before ev after was e) = rw e λ n.
    let held : count_id n w.held ≡ count_id n (before ++ ev ∷ after) = ap (count_id n) was in
    omega (
      arith,
      h n,
      held,
      count_id-append n before (ev ∷ after),
      count_id-append n before after,
      count_id-append n w.log (ev ∷ []),
    )
Step-Once h (subscribes buffer e) = rw e h
Step-Once h (unsubscribes id e) = rw e h
Step-Once h (receives id e) = rw e h

-- In every reachable state each number from 1 to the counter is carried by exactly one event, in
-- the log or waiting for the lock, and no other number is carried at all.
pub Reach-Once :
    {max : ℕ} {w : World}
    → Reach max w
    → (n : ℕ)
    → count_id n w.log + count_id n w.held
      ≡ (if leb 1 n then (if leb n w.bus.seq then 1 else 0) else 0)
unfolding new_bus
Reach-Once here n = ground arith
Reach-Once (next {w = u} r s) n = Step-Once {w = u} (Reach-Once r) s n
