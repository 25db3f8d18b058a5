-- ===== src/Api/Funding/Waits.antt =====
-- The waits of a top up in internal/api/wallet.go end.
use Prim.Native.String.{◌++◌ as concat}
use chaos_test.Common.{
  ℕ, suc, ◌+◌, ◌*◌, ◌≤◌, ◌<◌, ◌≡◌, ◌≢◌, ◌⊎◌, sym, ◌∙◌, inl, inr, String, none, some, arith, ltb,
  str_eq, eq_iff, Bool-cases, Option-cases,
}
use chaos_test.Common.Rounds.{rounds-ends}
use chaos_test.Observe.Snapshot.{Reply, failed, got}
use chaos_test.Api.Funding.{Look, or_late, proven, proof_round, wait_for_proof}

-- Each pause that the context does not cut short lasts as long as it is asked to, and the first look
-- is not before the beginning.
pub record IsPaced (pause began : ℕ) (looks : ℕ → Look) : Type 0 where
  pub first : began ≤ (looks 0).now
  pub paced : (i : ℕ) → (looks i).over ≡ none → (looks i).now + pause ≤ (looks (i + 1)).now

late-some {ℓ} :
    {A : Type ℓ} (deadline : ℕ) (text : String) (l : Look)
    → deadline < l.now
    → or_late {A = A} deadline text l ≡ some (failed text)
unfolding or_late
late-some deadline text l h = ground arith

late-none {ℓ} :
    {A : Type ℓ} (deadline : ℕ) (text : String) (l : Look)
    → or_late {A = A} deadline text l ≡ none
    → l.over ≡ none
unfolding or_late
late-none deadline text l h = ground arith

module _ (within : String) (deadline : ℕ) (looks : ℕ → Look) where
  proof-over : (i : ℕ) → proof_round within deadline looks i ≡ none → (looks i).over ≡ none
  unfolding proof_round or_late
  proof-over i h = ground arith

  proof-late :
      (i : ℕ)
      → deadline < (looks i).now
      → (r : Reply (String × ℕ)) × (proof_round within deadline looks i ≡ some r)
  unfolding proof_round
  proof-late i h = elim (Option-cases (proven (looks i).path)) [
    | inl not_yet ↦ (
      failed (concat "timed out after " within),
      rw (proof_round, not_yet) (late-some deadline (concat "timed out after " within) (looks i) h),
    )
    | inr (p, there) ↦ (got p, rw (proof_round, there))
  ]

  proof-none : (i : ℕ) → proof_round within deadline looks i ≡ none → proven (looks i).path ≡ none
  unfolding proof_round
  proof-none i h = ground arith

-- An answer has no merkle path: it is an error, or its path is empty.
abbrev pub HasNone : Reply (String × ℕ) → Type 0
HasNone answer = (path : String) (height : ℕ) → answer ≡ got (path, height) → path ≡ ""

proven-HasNone : (answer : Reply (String × ℕ)) → proven answer ≡ none → HasNone answer
unfolding proven
proven-HasNone (failed err) h path height is = cc
proven-HasNone (got (p, k)) h path height is =
    let same : p ≡ path = cc in
    elim (Bool-cases (str_eq p "")) [
      | inl empty ↦ sym same ∙ (eq_iff p "").0 empty
      | inr full ↦ let stop = rw (proven, full) at h in cc stop
    ]

proven-path :
    (answer : Reply (String × ℕ)) (path : String) (height : ℕ)
    → proven answer ≡ some (path, height)
    → (answer ≡ got (path, height)) × (path ≢ "")
unfolding proven
proven-path (failed err) path height h = cc
proven-path (got (p, k)) path height h = elim (Bool-cases (str_eq p "")) [
  | inl empty ↦ let stop = rw (proven, empty) at h in cc stop
  | inr full ↦
      let is : some (p, k) ≡ some (path, height) = rw (proven, full) at h in
      (cc, λ e. let same : p ≡ path = cc in let yes = (eq_iff p "").1 (same ∙ e) in cc)
]

-- What a wait comes to in its last round: the path that arcade has, or an error without one, which is
-- that the time is over, or the context's.
abbrev pub IsLast : String → ℕ → Look → Reply (String × ℕ) → Type 0
IsLast within deadline l r =
    ((path : String) × (height : ℕ) × (r ≡ got (path, height))
      × (l.path ≡ got (path, height))
      × (path ≢ ""))
    ⊎ HasNone l.path
      × ((r ≡ failed (concat "timed out after " within)) × (deadline < l.now)
          ⊎ ((err : String) × (r ≡ failed err) × (l.over ≡ some err)))

late-IsLast :
    (within : String) (deadline : ℕ) (l : Look) (r : Reply (String × ℕ))
    → or_late deadline (concat "timed out after " within) l ≡ some r
    → (r ≡ failed (concat "timed out after " within)) × (deadline < l.now)
      ⊎ ((err : String) × (r ≡ failed err) × (l.over ≡ some err))
unfolding or_late
late-IsLast within deadline l r h = elim (Bool-cases (ltb deadline l.now)) [
  | inl late ↦ inl (let is = rw (or_late, late) at h in cc, ground (arith, late))
  | inr soon ↦ elim (Option-cases l.over) [
    | inl on ↦ let stop = rw (or_late, soon, on) at h in cc stop
    | inr (err, over) ↦ inr (err, (let is = rw (or_late, soon, over) at h in cc), over)
  ]
]

proof_round-IsLast :
    (within : String) (deadline : ℕ) (looks : ℕ → Look) (i : ℕ) (r : Reply (String × ℕ))
    → proof_round within deadline looks i ≡ some r
    → IsLast within deadline (looks i) r
unfolding proof_round
proof_round-IsLast within deadline looks i r h = elim (Option-cases (proven (looks i).path)) [
  | inl not_yet ↦
      let late = rw (proof_round, not_yet) at h in
      inr (proven-HasNone (looks i).path not_yet, late-IsLast within deadline (looks i) r late)
  | inr ((path, height), there) ↦
      let is : some (got (path, height)) ≡ some r = rw (proof_round, there) at h in
      let (answers, full) = proven-path (looks i).path path height there in
      inl (path, height, cc, answers, full)
]

-- Where each pause that the context does not cut short lasts as long as it is asked to: the wait for
-- a proof ends within the rounds that its time has room for, and one more. In no round before the
-- last one did arcade answer with a merkle path that is not empty. If it does in the last one, the
-- path and its height are returned; else an error, which is that the time is over, if it is, or that
-- of the context.
pub wait_for_proof-ends :
    (within : String) (time began : ℕ) (looks : ℕ → Look) (n : ℕ)
    → IsPaced 2000000000 began looks
    → time < n * 2000000000
    → (r : Reply (String × ℕ)) × (wait_for_proof (suc n) within (began + time) looks ≡ some r)
      × ((i : ℕ) × IsLast within (began + time) (looks i) r
          × ((j : ℕ) → j < i → HasNone (looks j).path))
unfolding wait_for_proof
wait_for_proof-ends within time began looks n paced enough =
    let deadline = began + time in
    let end =
      rounds-ends (proof_round within deadline looks) (λ i. (looks i).now) 2000000000 deadline n
        (λ i going. paced.paced i (proof-over within deadline looks i going))
        (proof-late within deadline looks) (omega (arith, paced.first)) in
    (
      end.0,
      end.1,
      (
        end.2.at,
        proof_round-IsLast within deadline looks end.2.at end.0 end.2.result,
        λ j low.
            proven-HasNone (looks j).path
              (proof-none within deadline looks j (end.2.before j (omega arith) low)),
      ),
    )
