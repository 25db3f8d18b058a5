-- ===== src/Scenario/Partitions.antt =====
-- `trackPartition` of internal/scenario/executor.go and `cleanup` of internal/scenario/engine.go: the
-- planes that a run has cut and not healed.
use chaos_test.Common.{
  Bool, true, false, not, ◌||◌, String, Option, none, some, List, [], ◌∷◌, ◌++◌, map, str_eq,
  if◌then◌else◌, keep,
}
use chaos_test.Common.Dict.{Dict, lookup, insert, delete}
use chaos_test.Scenario.{Run}

abbrev pub is_nil : List String → Bool
is_nil [] = true
is_nil (x ∷ xs) = false

unfoldable pub planes_of : String → Dict (List String) → List String
planes_of node m = elim (lookup node m) [ none ↦ [] | some planes ↦ planes ]

unfoldable pub store : String → List String → Dict (List String) → Dict (List String)
store node planes m = if is_nil planes then delete node m else insert node planes m

unfoldable pub track : String → String → Bool → Dict (List String) → Dict (List String)
track node plane on m =
    let kept = keep (λ (p : String). not (str_eq p plane)) (planes_of node m) in
    store node (if on then kept ++ plane ∷ [] else kept) m

-- Every plane that is open, with its node.
abbrev pub pairs : String → List String → List (String × String)
pairs node [] = []
pairs node (p ∷ ps) = (node, p) ∷ pairs node ps

unfoldable pub open_pairs : Dict (List String) → List (String × String)
open_pairs [] = []
open_pairs ((node, planes) ∷ m) = pairs node planes ++ open_pairs m

-- One heal: the plane, and the error of `Partition`, none if it was healed.
pub record Heal : Type 0 where
  pub node : String
  pub plane : String
  pub error : Option String

abbrev pub none_open : Dict (List String) → Bool
none_open [] = true
none_open (entry ∷ m) = false

unfoldable pub cleanup : (String → String → Option String) → Run → Run × List Heal
cleanup heal r = if r.keep_open || none_open r.open_partitions then (r, []) else (
  record r { open_partitions = [] },
  map (λ (np : String × String). record { node = np.0; plane = np.1; error = heal np.0 np.1 })
      (open_pairs r.open_partitions),
)
