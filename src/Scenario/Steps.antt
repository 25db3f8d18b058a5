-- ===== src/Scenario/Steps.antt =====
-- `execute` of internal/scenario/engine.go with `runStep` of internal/scenario/executor.go, for what
-- the step's parts answer: the order of the steps, their statuses and the findings.
use Prim.Native.String.{◌++◌ as concat}
use chaos_test.Common.{
  ℕ, Bool, true, false, String, Option, none, some, List, [], ◌∷◌, ◌++◌, map, if◌then◌else◌,
}
use chaos_test.Scenario.{StepStatus, RunStatus, AssertResult, StepResult, Run, pending, skipped}
use chaos_test.Scenario.Partitions.{cleanup, Heal}

-- What the parts of a step answer: the error of its parameters, that of its action, and the result
-- of each assertion once its polling is over.
pub record Answers : Type 0 where
  pub resolve_error : Option String
  pub action_error : Option String
  pub asserts : List AssertResult

-- The status, the error, the assertions made, and the findings.
pub record Outcome : Type 0 where
  pub status : StepStatus
  pub error : String
  pub assertions : List AssertResult
  pub found : List String

abbrev pub refused : String → Outcome
refused err = record { status = StepStatus.failed; error = err; assertions = []; found = [] }

with_assert : AssertResult → List String → Outcome → Outcome
with_assert a found o = record o { assertions = a ∷ o.assertions; found = found ++ o.found }

-- An assertion that should hold and does not is a finding; one that must ends the step.
-- The text of a finding is without the name of its step.
unfoldable pub run_asserts : List AssertResult → Outcome
unfolding with_assert
run_asserts [] = record { status = StepStatus.passed; error = ""; assertions = []; found = [] }
run_asserts (a ∷ rest) =
    let more = run_asserts rest in
    if a.holds
    then with_assert a [] more
    else if a.should
    then with_assert a (concat a.check (concat " (" (concat a.detail ")")) ∷ []) more
    else record {
      status = StepStatus.failed;
      error = concat "assertion " (concat a.check (concat ": " a.detail));
      assertions = a ∷ [];
      found = [];
    }

unfoldable pub run_step : Answers → Outcome
run_step x = elim x.resolve_error [
  | some err ↦ refused (concat "resolve: " err)
  | none ↦ elim x.action_error [ some err ↦ refused err | none ↦ run_asserts x.asserts ]
]

-- One round of the loop: whether the context has ended when it is looked at, which in step mode is
-- after the pause, and what the step answers.
pub record Turn : Type 0 where
  pub ended : Bool
  pub answers : Answers

abbrev pub filled : StepResult → Outcome → StepResult
filled s o = record s { status = o.status; error = o.error; assertions = o.assertions }

abbrev pub has_failed : StepStatus → Bool
has_failed StepStatus.failed = true
has_failed _ = false

-- The steps after the loop, its findings, and the status that it leaves with.
pub record Looped : Type 0 where
  pub steps : List StepResult
  pub found : List String
  pub final : RunStatus

unfoldable pub loop : (ℕ → Turn) → List StepResult → Looped
loop turn [] = record { steps = []; found = []; final = RunStatus.passed }
loop turn (s ∷ ss) =
    let o = run_step (turn s.index).answers in
    let more = loop turn ss in
    if (turn s.index).ended
    then record { steps = s ∷ ss; found = []; final = RunStatus.aborted }
    else if has_failed o.status
    then record { steps = filled s o ∷ ss; found = o.found; final = RunStatus.failed }
    else record {
      steps = filled s o ∷ more.steps;
      found = o.found ++ more.found;
      final = more.final;
    }

abbrev pub skip_pending : StepResult → StepResult
skip_pending s = record s { status = elim s.status [ pending ↦ skipped | other ↦ other ] }

abbrev pub after_loop : Bool → RunStatus → RunStatus
after_loop true RunStatus.passed = RunStatus.aborted
after_loop ended final = final

-- `execute`; `ended` is whether the context has ended behind the loop.
unfoldable pub execute :
    (String → String → Option String) → (ℕ → Turn) → Bool → Run → Run × List Heal
execute heal turn ended r =
    let l = loop turn r.steps in
    let (cleaned, heals) =
      cleanup heal (record r { steps = l.steps; findings = r.findings ++ l.found }) in
    (
      record cleaned { status = after_loop ended l.final; steps = map skip_pending cleaned.steps },
      heals,
    )
