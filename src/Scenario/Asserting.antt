-- ===== src/Scenario/Asserting.antt =====
-- `assert` of internal/scenario/executor.go: the polling of one assertion. What the check answers, and
-- what the clock and the context say after it, is one `Look` for each round; a pause that the end of
-- the context cuts short is one after which the next look has it over.
use Prim.Native.String.{◌++◌ as concat}
use chaos_test.Common.{
  ◌⊎◌, ℕ, suc, ◌+◌, ◌*◌, ◌≤◌, ◌<◌, ◌≡◌, sym, ap, ◌∙◌, inl, inr, String, Bool, true, false, ◌||◌,
  Option, none, some, arith, ltb, str_eq, if◌then◌else◌, Bool-cases, ◌==◌,
}
use chaos_test.Common.Rounds.{rounds, IsFirst, IsFirst-le, rounds-ends, rounds-IsFirst}
use chaos_test.Scenario.{AssertResult}

-- `timeout` is in nanoseconds, with its default.
pub record Assertion : Type 0 where
  pub check : String
  pub should : Bool
  pub message : String
  pub timeout : ℕ

pub record Look : Type 0 where
  pub holds : Bool
  pub detail : String
  pub now : ℕ
  pub over : Bool

-- Checks that are made once.
unfoldable pub is_once : String → Bool
is_once check = str_eq check "no_event" || str_eq check "expr"

unfoldable pub round : Assertion → ℕ → (ℕ → Look) → ℕ → Option (Bool × String)
round a deadline looks i =
    if (looks i).holds
    then some (true, (looks i).detail)
    else if is_once a.check || (ltb deadline (looks i).now || (looks i).over)
    then some (false, (looks i).detail)
    else none

unfoldable pub made : Assertion → Bool × String → AssertResult
made a (passed, detail) = record {
  check = a.check;
  holds = passed;
  should = a.should;
  detail = if str_eq a.message "" then detail else concat a.message (concat ": " detail);
}

unfoldable pub result : Assertion → Option (Bool × String) → Option AssertResult
unfolding made
result a none = none
result a (some p) = some (made a p)

-- `began` is the instant from which the deadline counts; none is that the fuel ran out.
unfoldable pub assert : ℕ → Assertion → Option String → ℕ → (ℕ → Look) → Option AssertResult
assert fuel a bad began looks = elim bad [
  | some err ↦ some (record {
    check = a.check;
    holds = false;
    should = a.should;
    detail = concat "resolve: " err;
  })
  | none ↦ result a (rounds fuel (round a (began + a.timeout) looks) 0)
]

-- The pause of the loop.
abbrev pub pause : ℕ
pause = 750000000

module _ (a : Assertion) (deadline : ℕ) (looks : ℕ → Look) where
  going-over : (i : ℕ) → round a deadline looks i ≡ none → (looks i).over ≡ false
  unfolding round
  going-over i h = ground arith

  late-stops :
      (i : ℕ) → deadline < (looks i).now → (r : Bool × String) × (round a deadline looks i ≡ some r)
  unfolding round
  late-stops i h = elim (Bool-cases (looks i).holds) [
    | inl passes ↦ ((true, (looks i).detail), rw (round, passes))
    | inr fails ↦ ((false, (looks i).detail), ground arith)
  ]

  answer :
      (i : ℕ) {r : Bool × String}
      → round a deadline looks i ≡ some r
      → ((looks i).holds ≡ r.0) × (r.1 ≡ (looks i).detail)
  unfolding round
  answer i h = ground arith

  still : (i : ℕ) → round a deadline looks i ≡ none → (looks i).holds ≡ false
  unfolding round
  still i h = ground arith

  goes_on :
      (i : ℕ)
      → is_once a.check ≡ false
      → (looks i).over ≡ false
      → (looks i).now ≤ deadline
      → (looks i).holds ≡ false
      → round a deadline looks i ≡ none
  unfolding round
  goes_on i polled over soon fails = ground arith

  gave_up :
      (i : ℕ) {r : Bool × String}
      → round a deadline looks i ≡ some r
      → r.0 ≡ false
      → (is_once a.check ≡ true) ⊎ (deadline < (looks i).now) ⊎ ((looks i).over ≡ true)
  unfolding round
  gave_up i h fails = elim (Bool-cases (is_once a.check)) [
    | inl once ↦ inl once
    | inr polled ↦ elim (Bool-cases (ltb deadline (looks i).now)) [
      | inl late ↦ inr (inl (ground (arith, late)))
      | inr soon ↦ inr (inr (ground (arith, h, fails, polled, soon)))
    ]
  ]

  first-holds :
      {r : Bool × String}
      → IsFirst (round a deadline looks) 0 r
      → ((k : ℕ) × ((looks k).holds ≡ r.0)
          × (r.1 ≡ (looks k).detail)
          × ((j : ℕ) → j < k → (looks j).holds ≡ false))
  first-holds {r} h =
      let (e1, e2) = answer h.at h.result in
      (h.at, e1, e2, λ j low. still j (h.before j (omega arith) low))

  first-passes :
      (k : ℕ) {r : Bool × String} (h : IsFirst (round a deadline looks) 0 r)
      → h.at ≤ k
      → is_once a.check ≡ false
      → (looks k).holds ≡ true
      → ((j : ℕ) → j < k → ((looks j).over ≡ false) × ((looks j).now ≤ deadline))
      → r.0 ≡ true
  first-passes k {r} h low polled holds going =
      let seen = answer h.at h.result in
      elim (Bool-cases (h.at == k)) [
        | inl same ↦
            let it : h.at ≡ k = ground (arith, same) in
            sym seen.0 ∙ ap (λ i. (looks i).holds) it ∙ holds
        | inr other ↦
            let before = going h.at (ground (arith, other)) in
            elim (Bool-cases (looks h.at).holds) [
              | inl passes ↦ sym seen.0 ∙ passes
              | inr fails ↦
                  let none_yet = goes_on h.at polled before.0 before.1 fails in cc (h.result)
            ]
      ]

-- Each pause lasts as long as it is asked to, or ends with the context; and a context that is over
-- when the pause is, is over in the next round.
abbrev pub IsPaced : (ℕ → Look) → Type 0
IsPaced looks =
    (i : ℕ)
    → (looks i).over ≡ false
    → ((looks i).now + pause ≤ (looks (i + 1)).now) ⊎ ((looks (i + 1)).over ≡ true)

-- The clock, past the deadline where the context is over.
stop_clock : ℕ → (ℕ → Look) → ℕ → ℕ
stop_clock deadline looks i = if (looks i).over then deadline + 1 + pause else (looks i).now

module _ (a : Assertion) (deadline : ℕ) (looks : ℕ → Look) where
  going-soon : (i : ℕ) → round a deadline looks i ≡ none → (looks i).now ≤ deadline
  unfolding round
  going-soon i h = ground arith

  stop_clock-paced :
      IsPaced looks
      → (i : ℕ) → round a deadline looks i ≡ none
      → stop_clock deadline looks i + pause ≤ stop_clock deadline looks (i + 1)
  unfolding stop_clock
  stop_clock-paced paced i going = ground (
    arith,
    paced i (going-over a deadline looks i going),
    going-over a deadline looks i going,
    going-soon i going,
  )

  over-stops :
      (i : ℕ) → (looks i).over ≡ true → (r : Bool × String) × (round a deadline looks i ≡ some r)
  unfolding round
  over-stops i h = elim (Bool-cases (looks i).holds) [
    | inl passes ↦ ((true, (looks i).detail), rw (round, passes))
    | inr fails ↦ ((false, (looks i).detail), ground arith)
  ]

  stop_clock-late :
      (i : ℕ)
      → deadline < stop_clock deadline looks i
      → (r : Bool × String) × (round a deadline looks i ≡ some r)
  unfolding stop_clock
  stop_clock-late i h = elim (Bool-cases (looks i).over) [
    | inl over ↦ over-stops i over
    | inr on ↦ late-stops a deadline looks i (ground (arith, h, on))
  ]

-- Where the parameters resolve, and each pause lasts as long as it is asked to or ends because the
-- context is over: the assertion has a result within the rounds that the timeout has room for, and
-- one more. It passes exactly as the check does in some round, and the check has failed in all rounds
-- before that one. If it does not pass, the check is one that is made once, or that round was behind
-- the deadline or its context was over.
pub assert-ends :
    (a : Assertion) (began : ℕ) (looks : ℕ → Look) (n : ℕ)
    → IsPaced looks
    → began ≤ (looks 0).now
    → a.timeout < n * pause
    → (r : AssertResult) × (assert (suc n) a none began looks ≡ some r)
      × ((k : ℕ) × ((looks k).holds ≡ r.holds)
          × ((j : ℕ) → j < k → (looks j).holds ≡ false)
          × (r.holds ≡ false
              → (is_once a.check ≡ true)
                ⊎ (began + a.timeout < (looks k).now)
                ⊎ ((looks k).over ≡ true)))
unfolding assert result stop_clock
assert-ends a began looks n paced first enough =
    let deadline : ℕ = began + a.timeout in
    let end =
      rounds-ends (round a deadline looks) (stop_clock deadline looks) pause deadline n
        (stop_clock-paced a deadline looks paced) (stop_clock-late a deadline looks)
        (ground (arith, first, enough)) in
    let seen = answer a deadline looks end.2.at end.2.result in
    (
      made a end.0,
      rw end.1,
      (
        end.2.at,
        seen.0,
        (λ j low. still a deadline looks j (end.2.before j (omega arith) low)),
        (λ fails. gave_up a deadline looks end.2.at end.2.result fails),
      ),
    )

-- An assertion whose check comes to hold passes, as long as its parameters resolve, it is polled at
-- all, and in no round before was the context over or the deadline behind.
pub assert-holds :
    (a : Assertion) (began : ℕ) (looks : ℕ → Look) (k fuel : ℕ)
    → is_once a.check ≡ false
    → (looks k).holds ≡ true
    → ((j : ℕ) → j < k → ((looks j).over ≡ false) × ((looks j).now ≤ began + a.timeout))
    → k < fuel
    → (r : AssertResult) × (assert fuel a none began looks ≡ some r) × (r.holds ≡ true)
unfolding assert result round
assert-holds a began looks k fuel polled holds going enough =
    let deadline : ℕ = began + a.timeout in
    let step : ℕ → Option (Bool × String) = round a deadline looks in
    let hit : step k ≡ some (true, (looks k).detail) = rw (round, holds) in
    let end = rounds-IsFirst fuel step 0 k hit (omega arith) (omega arith) in
    (
      made a end.0,
      rw end.1,
      first-passes a deadline looks k end.2 (IsFirst-le step 0 k end.2 (omega arith) hit) polled
          holds going,
    )
