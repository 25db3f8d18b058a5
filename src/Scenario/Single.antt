-- ===== src/Scenario/Single.antt =====
-- internal/scenario/engine.go holds one run that is on at most. The goroutine of a run that is on
-- pauses it, resumes it and ends it; a run that is over has no goroutine. `Next` and `Abort` write
-- no status.
use mathlib.Core.Bool.{false≢true}
use chaos_test.Common.{
  ℕ, ◌+◌, ◌≡◌, refl, sym, ◌∙◌, inl, inr, Bool, true, false, String, none, some, List, [], ◌∷◌,
  arith, str_eq, eq_iff, if◌then◌else◌, Bool-cases, Option-cases,
}
use chaos_test.Common.Dict.{Dict, lookup, insert, lookup-insert}
use chaos_test.Scenario.{Run, running, Engine, ok, start, is_active, any_active, restored, number}

unfoldable pub is_on : String → Dict Run → Bool
is_on id runs = elim (lookup id runs) [ none ↦ false | some r ↦ is_active r.status ]

pub data Step (e f : Engine) : Type 0 where
  starts :
      (id : ℕ → String) (scenario : String) (keep_open : Bool)
      → start id scenario keep_open e ≡ ok f
      → Step e f
  moves :
      (id : String) (r : Run)
      → is_on id e.runs ≡ true
      → f ≡ record e { runs = insert id r e.runs }
      → Step e f

abbrev pub restored_runs : Dict Run → Dict Run
restored_runs [] = []
restored_runs ((id, r) ∷ rs) = (id, restored r) ∷ restored_runs rs

-- From an engine that has loaded the runs of an earlier process.
pub data Reach (e : Engine) : Engine → Type 0 where
  here : Reach e (record e { runs = restored_runs e.runs })
  next : {f g : Engine} → Reach e f → Step f g → Reach e g

abbrev pub Single : Dict Run → Type 0
Single runs = (i j : String) → is_on i runs ≡ true → is_on j runs ≡ true → i ≡ j

is_on-insert :
    (id i : String) (r : Run) (runs : Dict Run)
    → is_on i (insert id r runs) ≡ (if str_eq id i then is_active r.status else is_on i runs)
unfolding is_on
is_on-insert id i r runs = ground (arith, lookup-insert id i r runs)

is_on-any : (i : String) (runs : Dict Run) → any_active runs ≡ false → is_on i runs ≡ false
unfolding is_on lookup
is_on-any i [] h = refl
is_on-any i ((k, r) ∷ rs) h = ground (arith, is_on-any i rs)

restored_off : (runs : Dict Run) → any_active (restored_runs runs) ≡ false
unfolding restored is_active
restored_off [] = refl
restored_off ((id, r) ∷ rs) = ground (arith, restored_off rs)

start-quiet :
    (id : ℕ → String) (scenario : String) (keep_open : Bool) (e f : Engine)
    → start id scenario keep_open e ≡ ok f
    → (any_active e.runs ≡ false) × (r : Run) × (f.runs ≡ insert (id (e.seq + 1)) r e.runs)
unfolding start
start-quiet id scenario keep_open e f h = elim (Option-cases (lookup scenario e.defs)) [
  | inl none_known ↦ absurd (ground arith)
  | inr (names, known) ↦ (ground arith, fresh names, ground arith)
]
  where
    fresh : List String → Run
    fresh names = record {
      scenario_id = scenario;
      status = running;
      steps = number 0 names;
      findings = [];
      open_partitions = [];
      keep_open = keep_open;
      error = "";
    }

same_id :
    (id : String) (r : Run) (runs : Dict Run)
    → ((k : String) → is_on k runs ≡ true → k ≡ id)
    → (i : String) → is_on i (insert id r runs) ≡ true
    → i ≡ id
same_id id r runs only i h = elim (Bool-cases (str_eq id i)) [
  | inl same ↦ sym ((eq_iff id i).0 same)
  | inr other ↦ only i (ground (arith, is_on-insert id i r runs))
]

insert-Single :
    (id : String) (r : Run) (runs : Dict Run)
    → ((k : String) → is_on k runs ≡ true → k ≡ id)
    → Single (insert id r runs)
insert-Single id r runs only i j p q = same_id id r runs only i p ∙ sym (same_id id r runs only j q)

Step-Single : {e f : Engine} → Single e.runs → Step e f → Single f.runs
Step-Single {e} {f} h (starts id scenario keep_open s) =
    let (quiet, r, grown) = start-quiet id scenario keep_open e f s in
    rw grown (
      insert-Single (id (e.seq + 1)) r e.runs
        (λ k on. absurd (false≢true (sym (is_on-any k e.runs quiet) ∙ on))))
Step-Single {e} h (moves id r on s) = rw s (insert-Single id r e.runs (λ k there. h k id there on))

-- However calls of `Start` and the goroutines of the runs interleave, from an engine that has loaded
-- any earlier runs, two runs that are running or paused are the same run.
pub Reach-Single : {e f : Engine} → Reach e f → Single f.runs
Reach-Single {e} here =
    λ i j p q. absurd (false≢true (sym (is_on-any i _ (restored_off e.runs)) ∙ p))
Reach-Single (next r s) = Step-Single (Reach-Single r) s
