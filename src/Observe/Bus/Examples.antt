-- ===== src/Observe/Bus/Examples.antt =====
-- Runs of the bus of internal/observe/bus.go at concrete inputs.
use chaos_test.Common.{◌+◌, ◌≡◌, refl, List, [], ◌∷◌, drop, if◌then◌else◌, leb}
use chaos_test.Observe.Bus.{Event, new_bus, append, draw, since, subscribe}
use chaos_test.Observe.Bus.World.{World, Reach, here, next, draws, appends, subscribes, numbered}
use chaos_test.Observe.Bus.Window.{IsWindow, Reach-IsWindow}
use chaos_test.Observe.Bus.Numbers.{count_id, Reach-Once}
use chaos_test.Observe.Bus.Polling.{Call, run, history, since-run}

abbrev first : Event
first = numbered 1 10 "mine" "svnode1" "mined" []

abbrev second : Event
second = numbered 2 20 "wallet" "" "sent" []

-- Two publishers over a ring of one event, the second one faster, beside a subscriber.
abbrev two_drawn : World
two_drawn = record {
  bus = record {
    seq = 2;
    ring = [];
    max = 1;
    subs = (0, record { buffer = 1; queued = [] }) ∷ [];
    next_sub = 1;
  };
  held = first ∷ second ∷ [];
  log = [];
}

abbrev both_appended : World
both_appended = record {
  bus = append first (append second two_drawn.bus);
  held = [];
  log = second ∷ first ∷ [];
}

drawn : Reach 1 two_drawn
unfolding new_bus subscribe draw
drawn =
    next (next (next here (subscribes 1 refl)) (draws 10 "mine" "svnode1" "mined" [] refl))
      (draws 20 "wallet" "" "sent" [] refl)

raced : Reach 1 both_appended
raced = next (next drawn (appends (first ∷ []) second [] refl refl)) (appends [] first [] refl refl)

Reach-IsWindow_example : IsWindow 1 both_appended
Reach-IsWindow_example = Reach-IsWindow raced

Reach-Once_example :
    count_id 2 both_appended.log + count_id 2 both_appended.held
    ≡ (if leb 1 2 then (if leb 2 both_appended.bus.seq then 1 else 0) else 0)
Reach-Once_example = Reach-Once raced 2

abbrev two_calls : List Call
two_calls =
    record { now = 10; kind = "mine"; node = "svnode1"; message = "mined"; attrs = [] }
    ∷ record { now = 20; kind = "wallet"; node = ""; message = "sent"; attrs = [] }
    ∷ []

since-run_example : since 0 (run (new_bus 1) two_calls) ≡ drop 1 (history 0 two_calls)
since-run_example = since-run 1 0 two_calls
