-- ===== src/Scenario.antt =====
-- internal/scenario/engine.go: a run of a scenario and the engine that holds the runs. What a step
-- does outside, its outputs, the files and the published events are left out.
pub mod Partitions
pub mod Healing
pub mod Steps
pub mod Asserting
pub mod Eval
pub mod Shape
pub mod Single
mod Examples
use chaos_test.Common.{
  ℕ, ◌+◌, Bool, true, false, not, ◌||◌, String, Option, none, some, List, [], ◌∷◌, map, str_eq,
  if◌then◌else◌,
}
use chaos_test.Common.Dict.{Dict, lookup, insert}

pub data StepStatus : Type 0 where
  pending running passed failed skipped : StepStatus

pub data RunStatus : Type 0 where
  running paused passed failed aborted : RunStatus

pub record AssertResult : Type 0 where
  pub check : String
  pub holds : Bool
  pub should : Bool
  pub detail : String

pub record StepResult : Type 0 where
  pub index : ℕ
  pub name : String
  pub status : StepStatus
  pub error : String
  pub assertions : List AssertResult

pub record Run : Type 0 where
  pub scenario_id : String
  pub status : RunStatus
  pub steps : List StepResult
  pub findings : List String
  pub open_partitions : Dict (List String)
  pub keep_open : Bool
  pub error : String

pub record Engine : Type 0 where
  pub defs : Dict (List String)
  pub runs : Dict Run
  pub seq : ℕ

unfoldable pub is_active : RunStatus → Bool
is_active running = true
is_active paused = true
is_active _ = false

abbrev pub any_active : Dict Run → Bool
any_active [] = false
any_active ((id, r) ∷ rs) = is_active r.status || any_active rs

number : ℕ → List String → List StepResult
number i [] = []
number i (n ∷ ns) =
    record { index = i; name = n; status = pending; error = ""; assertions = [] }
    ∷ number (i + 1) ns

pub data Started : Type 0 where
  ok : Engine → Started
  unknown_scenario another_active : Started

-- `Start`, for a definition that is the names of its steps; `id` is the text of the run's identifier
-- for a sequence number, and `keep_open` whether the parameter cleanup is false.
unfoldable pub start : (ℕ → String) → String → Bool → Engine → Started
unfolding number
start id scenario keep_open e = elim (lookup scenario e.defs) [
  | none ↦ unknown_scenario
  | some names ↦
      if any_active e.runs
      then another_active
      else ok (record e {
        seq = e.seq + 1;
        runs =
            insert (id (e.seq + 1))
              (record {
                scenario_id = scenario;
                status = running;
                steps = number 0 names;
                findings = [];
                open_partitions = [];
                keep_open = keep_open;
                error = "";
              })
              e.runs;
      })
]

-- `loadRuns`: a run that was on when the process ended.
unfoldable pub restored : Run → Run
restored r =
    if is_active r.status
    then record r { status = aborted; error = "orchestrator restarted" }
    else r
