-- ===== src/Scenario/Examples.antt =====
-- Runs of internal/scenario at concrete inputs.
use chaos_test.Common.{
  ◌⊎◌, inl, ℕ, ◌+◌, ◌*◌, ◌≤◌, ◌<◌, arith, ltb, ◌≡◌, refl, true, false, String, Option, none, some,
  List, [], ◌∷◌,
}
use chaos_test.Common.Dict.{lookup, insert}
use chaos_test.Common.Text.{itoa}
use chaos_test.Scenario.Asserting.{
  Assertion, Look, is_once, IsPaced, pause, assert, assert-ends, assert-holds,
}
use chaos_test.Scenario.{AssertResult, Run, Engine, pending, skipped, running, start, number}
use chaos_test.Scenario.Healing.{Switch}
use chaos_test.Scenario.Steps.{Turn, execute}
use chaos_test.Scenario.Shape.{Left, execute-Left}
use chaos_test.Scenario.Single.{Reach, here, next, starts, Single, Reach-Single}

abbrev cuts : List Switch
cuts =
    record { node = "n1"; plane = "p2p"; on = true }
    ∷ record { node = "n1"; plane = "alert"; on = true }
    ∷ record { node = "n1"; plane = "p2p"; on = false }
    ∷ []

abbrev two_steps : Run
two_steps = record {
  scenario_id = "freeze";
  status = running;
  steps =
      record { index = 0; name = "cut"; status = pending; error = ""; assertions = [] }
      ∷ record { index = 1; name = "mine"; status = pending; error = ""; assertions = [] }
      ∷ [];
  findings = [];
  open_partitions = ("n1", "p2p" ∷ []) ∷ [];
  keep_open = false;
  error = "";
}

-- A heal that fails.
abbrev refuses : String → String → Option String
refuses node plane = some "no runtime"

abbrev fails : ℕ → Turn
fails i = record {
  ended = false;
  answers = record { resolve_error = none; action_error = some "unreachable"; asserts = [] };
}

execute-Left_example :
    let over = (execute refuses fails false two_steps).0 in Left skipped over.steps over.status
execute-Left_example = execute-Left refuses fails false two_steps (refl, (refl, tt))

abbrev engine : Engine
engine = record { defs = ("freeze", "cut" ∷ "mine" ∷ []) ∷ []; runs = []; seq = 0 }

abbrev started : Engine
started = record engine { seq = 1; runs = ("1", record two_steps { open_partitions = [] }) ∷ [] }

begun : Reach engine started
unfolding start lookup insert number itoa
begun = next here (starts itoa "freeze" false refl)

Reach-Single_example : Single started.runs
Reach-Single_example = Reach-Single begun

-- A check that comes to hold in its third round.
abbrev same_tip : Assertion
same_tip = record { check = "same_tip"; should = false; message = ""; timeout = 2000000000 }

abbrev third_time : ℕ → Look
third_time i = record { holds = ltb 1 i; detail = "tips differ"; now = 5 + i * pause; over = false }

third-IsPaced : IsPaced third_time
third-IsPaced i on = inl (omega arith)

assert-ends_example :
    (r : AssertResult) × (assert 4 same_tip none 5 third_time ≡ some r)
    × ((k : ℕ) × ((third_time k).holds ≡ r.holds)
        × ((j : ℕ) → j < k → (third_time j).holds ≡ false)
        × (r.holds ≡ false
            → (is_once "same_tip" ≡ true)
              ⊎ (5 + same_tip.timeout < (third_time k).now)
              ⊎ ((third_time k).over ≡ true)))
assert-ends_example = assert-ends same_tip 5 third_time 3 third-IsPaced (omega arith) (omega arith)

polled_more : is_once "same_tip" ≡ false
unfolding is_once
polled_more = refl

in_time :
    (j : ℕ) → j < 2 → ((third_time j).over ≡ false) × ((third_time j).now ≤ 5 + same_tip.timeout)
in_time j h = (refl, omega arith)

assert-holds_example :
    (r : AssertResult) × (assert 3 same_tip none 5 third_time ≡ some r) × (r.holds ≡ true)
assert-holds_example = assert-holds same_tip 5 third_time 2 3 polled_more refl in_time (omega arith)
