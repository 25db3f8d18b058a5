-- ===== src/Scenario/Shape.antt =====
-- How the steps of a run of internal/scenario/engine.go stand when it is over.
use mathlib.Core.List.{append-nil}
use chaos_test.Common.{
  ℕ, ◌≡◌, refl, sym, ap, ◌∙◌, inl, inr, Bool, true, false, String, Option, List, [], ◌∷◌, ◌++◌, map,
  arith, Bool-cases, Option-cases, All,
}
use chaos_test.Scenario.{StepStatus, RunStatus, AssertResult, StepResult, Run, pending, skipped}
use chaos_test.Scenario.Partitions.{cleanup}
use chaos_test.Scenario.Steps.{
  Answers, Turn, run_asserts, run_step, loop, filled, has_failed, skip_pending, after_loop, execute,
}

abbrev pub Have : StepStatus → List StepResult → Type 0
Have status steps = All (λ (s : StepResult). s.status ≡ status) steps

-- The steps of a run that left with a status, `rest` being the status of those it did not reach.
pub data Left (rest : StepStatus) (steps : List StepResult) : RunStatus → Type 0 where
  whole : Have StepStatus.passed steps → Left rest steps RunStatus.passed
  cut_short :
      (before after : List StepResult)
      → steps ≡ before ++ after
      → Have StepStatus.passed before
      → Have rest after
      → Left rest steps RunStatus.aborted
  broken :
      (before : List StepResult) (s : StepResult) (after : List StepResult)
      → steps ≡ before ++ s ∷ after
      → Have StepStatus.passed before
      → s.status ≡ StepStatus.failed
      → Have rest after
      → Left rest steps RunStatus.failed

one_more :
    {rest : StepStatus} {final : RunStatus} {steps : List StepResult} (s : StepResult)
    → s.status ≡ StepStatus.passed
    → Left rest steps final
    → Left rest (s ∷ steps) final
one_more s h (whole p) = whole (h, p)
one_more s h (cut_short before after e p q) = cut_short (s ∷ before) after (ap (◌∷◌ s) e) (h, p) q
one_more s h (broken before t after e p f q) = broken (s ∷ before) t after (ap (◌∷◌ s) e) (h, p) f q

asserts_status :
    (xs : List AssertResult)
    → has_failed (run_asserts xs).status ≡ false
    → (run_asserts xs).status ≡ StepStatus.passed
unfolding run_asserts
asserts_status [] h = refl
asserts_status (a ∷ xs) h = ground (arith, asserts_status xs)

step_status :
    (x : Answers) → has_failed (run_step x).status ≡ false → (run_step x).status ≡ StepStatus.passed
unfolding run_step
step_status x h =
    ground
      (arith, Option-cases x.resolve_error, Option-cases x.action_error, asserts_status x.asserts)

failed_of : (s : StepStatus) → has_failed s ≡ true → s ≡ StepStatus.failed
failed_of s h = ground arith

loop-Left :
    (turn : ℕ → Turn) (steps : List StepResult)
    → Have pending steps
    → Left pending (loop turn steps).steps (loop turn steps).final
unfolding loop
loop-Left turn [] h = whole tt
loop-Left turn (s ∷ ss) h = elim (Bool-cases (turn s.index).ended) [
  | inl over ↦ rw over (cut_short [] (s ∷ ss) refl tt h)
  | inr on ↦ elim (Bool-cases (has_failed (run_step (turn s.index).answers).status)) [
    | inl bad ↦
        rw (on, bad)
          (broken [] (filled s (run_step (turn s.index).answers)) ss refl tt (failed_of _ bad) h.1)
    | inr good ↦ rw (on, good) (one_more _ (step_status _ good) (loop-Left turn ss h.1))
  ]
]

map-append :
    (f : StepResult → StepResult) (xs ys : List StepResult)
    → map f (xs ++ ys) ≡ map f xs ++ map f ys
map-append f [] ys = refl
map-append f (x ∷ xs) ys = ap (◌∷◌ (f x)) (map-append f xs ys)

passed_stay :
    (ss : List StepResult)
    → Have StepStatus.passed ss
    → Have StepStatus.passed (map skip_pending ss)
passed_stay [] h = tt
passed_stay (s ∷ ss) h = (ground arith, passed_stay ss h.1)

pending_skipped : (ss : List StepResult) → Have pending ss → Have skipped (map skip_pending ss)
pending_skipped [] h = tt
pending_skipped (s ∷ ss) h = (ground arith, pending_skipped ss h.1)

skip-Left :
    {final : RunStatus} {steps : List StepResult}
    → Left pending steps final
    → Left skipped (map skip_pending steps) final
skip-Left (whole p) = whole (passed_stay _ p)
skip-Left (cut_short before after e p q) =
    cut_short (map skip_pending before) (map skip_pending after)
      (ap (map skip_pending) e ∙ map-append skip_pending before after) (passed_stay before p)
      (pending_skipped after q)
skip-Left (broken before s after e p f q) =
    broken (map skip_pending before) (skip_pending s) (map skip_pending after)
      (ap (map skip_pending) e ∙ map-append skip_pending before (s ∷ after)) (passed_stay before p)
      (ground arith) (pending_skipped after q)

after-Left :
    {final : RunStatus} {steps : List StepResult} (ended : Bool)
    → Left skipped steps final
    → Left skipped steps (after_loop ended final)
after-Left {steps} true (whole p) = cut_short steps [] (sym (append-nil steps)) p tt
after-Left false (whole p) = whole p
after-Left true (cut_short before after e p q) = cut_short before after e p q
after-Left false (cut_short before after e p q) = cut_short before after e p q
after-Left true (broken before s after e p f q) = broken before s after e p f q
after-Left false (broken before s after e p f q) = broken before s after e p f q

cleanup_keeps :
    (heal : String → String → Option String) (r : Run) → (cleanup heal r).0.steps ≡ r.steps
unfolding cleanup
cleanup_keeps heal r = ground arith

-- However the steps answer and the context ends, a run that is over has passed with all its steps
-- passed; or it is aborted, with the steps behind some point skipped and those before it passed; or
-- it has failed, with one step failed, those before it passed and those behind it skipped. None is
-- left pending or running.
pub execute-Left :
    (heal : String → String → Option String) (turn : ℕ → Turn) (ended : Bool) (r : Run)
    → Have pending r.steps
    → let over = (execute heal turn ended r).0 in Left skipped over.steps over.status
unfolding execute
execute-Left heal turn ended r h =
    let l = loop turn r.steps in
    let k : (cleanup heal (record r { steps = l.steps; findings = r.findings ++ l.found })).0.steps
        ≡ l.steps =
      cleanup_keeps heal (record r { steps = l.steps; findings = r.findings ++ l.found }) in
    rw k (after-Left ended (skip-Left (loop-Left turn r.steps h)))
