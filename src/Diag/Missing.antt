-- ===== src/Diag/Missing.antt =====
-- What a verdict of internal/diag/rules.go says of the evidence that it had not.
use chaos_test.Common.{
  ◌≡◌, refl, ap, inl, inr, true, false, String, none, some, List, [], ◌∷◌, ◌++◌, arith, eq_iff,
  if◌then◌else◌, Bool-cases,
}
use chaos_test.Common.Dict.{contains, contains-append_one, Distinct, Distinct-append_one}
use chaos_test.Diag.{
  SourceStatus, FsmInfo, high, unknown, catching_up, src_tip, src_fsm, src_catchup,
}
use chaos_test.Diag.Rules.{
  Input, evaluate, finish, stopped, brief_of, not_answering, catching, fsm_is, wedged,
  failed_sources, list_failed, is_nil, answered,
}

-- What the loop adds to a list without repetition.
list_failed-contains :
    (ss : List SourceStatus) (missing : List String)
    → Distinct missing
    → Distinct (list_failed ss missing)
      × ((k : String)
          → contains (list_failed ss missing) k
            ≡ (if contains missing k then true else contains (failed_sources ss) k))
unfolding list_failed contains
list_failed-contains [] missing d = (d, λ k. ground arith)
list_failed-contains (s ∷ ss) missing d = elim (Bool-cases s.ok) [
  | inl fine ↦ rw fine (list_failed-contains ss missing d)
  | inr bad ↦ elim (Bool-cases (contains missing s.name)) [
    | inl there ↦
        let rest = list_failed-contains ss missing d in
        rw (bad, there) (rest.0, λ k. ground (arith, rest.1 k, eq_iff s.name k))
    | inr fresh ↦
        let rest =
          list_failed-contains ss (missing ++ s.name ∷ [])
            (Distinct-append_one missing s.name d fresh) in
        rw (bad, fresh)
          (rest.0, λ k. ground (arith, rest.1 k, contains-append_one missing s.name k))
  ]
]

missing_of_unknown :
    (i : Input)
    → (evaluate i).class ≡ unknown
    → (evaluate i).missing ≡ list_failed i.diag.sources []
unfolding evaluate finish
missing_of_unknown i h = ground arith

-- A node whose state cannot be explained is shown with exactly the sources that failed, each once.
pub unknown-missing :
    (i : Input)
    → (evaluate i).class ≡ unknown
    → Distinct (evaluate i).missing
      × ((k : String)
          → contains (evaluate i).missing k ≡ contains (failed_sources i.diag.sources) k)
unfolding contains
unknown-missing i h =
    let all = list_failed-contains i.diag.sources [] tt in rw (missing_of_unknown i h) all

-- A node whose state machine says that it catches up, where nothing outranks that, gets a verdict of
-- high confidence that names the catchup source as its evidence also where that source failed.
pub catching_up_confident :
    (i : Input) (f : FsmInfo)
    → answered i src_tip ≡ true
    → answered i src_fsm ≡ true
    → answered i src_catchup ≡ false
    → i.diag.container_state ≡ "running"
    → (brief_of i).partitions ≡ []
    → i.diag.fsm ≡ some f
    → f.state ≡ "CATCHINGBLOCKS"
    → i.diag.catchup ≡ none
    → ((evaluate i).class ≡ catching_up)
      × ((evaluate i).confidence ≡ high)
      × ((evaluate i).missing ≡ [])
      × (contains (evaluate i).evidence src_catchup ≡ true)
unfolding evaluate finish contains
catching_up_confident i f tip fsm catchup up joined known state none_known =
    let a : not_answering i ≡ false = unfold not_answering in rw tip in
    let b : stopped i ≡ false = unfold stopped in rw up in
    let j : is_nil (brief_of i).partitions ≡ true = ap is_nil joined in
    let idle : fsm_is "IDLE" i.diag ≡ false = unfold fsm_is in rw (known, state) in
    let w : wedged i ≡ false = unfold wedged in rw none_known in
    let c : catching i.diag ≡ true = unfold catching in unfold fsm_is in rw (known, state) in
    rw (evaluate, a, b, j, idle, w, c) (rw fsm (refl, refl, refl, refl))
