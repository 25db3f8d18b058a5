-- ===== src/Api/Attach.antt =====
-- `verifyAttachment` of internal/api/server.go: polling the container runtime until a container is on
-- a network, or off it.
use Prim.Native.String.{◌++◌ as concat}
use chaos_test.Common.{
  ℕ, ◌+◌, ◌≤◌, ◌<◌, ◌≡◌, ◌≢◌, refl, inl, inr, String, Bool, true, false, not, Option, none, some,
  List, arith, ltb, if◌then◌else◌, Bool-cases,
}
use chaos_test.Common.Dict.{contains}
use chaos_test.Common.Rounds.{rounds, IsFirst, rounds-ends}
use chaos_test.Observe.Snapshot.{Reply, failed, got}

-- One round: the networks of the container, the clock after that, and the context's error if it ends
-- the wait.
pub record Look : Type 0 where
  pub nets : Reply (List String)
  pub now : ℕ
  pub over : Option String

unfoldable pub same : Bool → Bool → Bool
same true b = b
same false b = not b

-- What the round does where the attachment is not as wanted: a text, and whether to go on.
unfoldable pub late : ℕ → String → Look → Option (Option String)
late deadline text l =
    if ltb deadline l.now
    then some (some text)
    else elim l.over [ some err ↦ some (some err) | none ↦ none ]

still_text : String → String → Bool → String
still_text container network want = concat container (
    concat " attachment to "
      (concat network (concat " is still " (if want then "false" else "true"))))

-- `some none` is that the attachment is as wanted, `some (some err)` an error.
unfoldable pub verify_round : String → String → Bool → ℕ → (ℕ → Look) → ℕ → Option (Option String)
unfolding still_text
verify_round container network want deadline looks i = elim (looks i).nets [
  | failed err ↦ late deadline err (looks i)
  | got nets ↦
      if same (contains nets network) want
      then some none
      else late deadline (still_text container network want) (looks i)
]

abbrev pub patience : ℕ
patience = 5000000000

abbrev pub pause : ℕ
pause = 300000000

unfoldable pub verify_attachment :
    ℕ → String → String → Bool → ℕ → (ℕ → Look) → Option (Option String)
verify_attachment fuel container network want began looks =
    rounds fuel (verify_round container network want (began + patience) looks) 0

-- Each pause that the context does not cut short lasts as long as it is asked to, and the first look
-- is not before the beginning.
pub record IsPaced (began : ℕ) (looks : ℕ → Look) : Type 0 where
  pub first : began ≤ (looks 0).now
  pub paced : (i : ℕ) → (looks i).over ≡ none → (looks i).now + pause ≤ (looks (i + 1)).now

module _ (container network : String) (want : Bool) (deadline : ℕ) (looks : ℕ → Look) where
  going-over :
      (i : ℕ) → verify_round container network want deadline looks i ≡ none → (looks i).over ≡ none
  unfolding verify_round late
  going-over i h = ground arith

  after_deadline :
      (text : String) (l : Look) → deadline < l.now → late deadline text l ≡ some (some text)
  unfolding late
  after_deadline text l h = ground arith

  stops_for :
      (i : ℕ) (nets : Reply (List String))
      → (looks i).nets ≡ nets
      → deadline < (looks i).now
      → (r : Option String) × (verify_round container network want deadline looks i ≡ some r)
  unfolding verify_round
  stops_for i (failed err) e h = (some err, rw (verify_round, e) (after_deadline err (looks i) h))
  stops_for i (got nets) e h = elim (Bool-cases (same (contains nets network) want)) [
    | inl as_wanted ↦ (none, rw (verify_round, e, as_wanted))
    | inr other ↦ (
      some (still_text container network want),
      rw (verify_round, e, other) (after_deadline (still_text container network want) (looks i) h),
    )
  ]

  late-stops :
      (i : ℕ)
      → deadline < (looks i).now
      → (r : Option String) × (verify_round container network want deadline looks i ≡ some r)
  late-stops i h = stops_for i (looks i).nets refl h

  late-ne-ok : (text : String) (l : Look) → late deadline text l ≢ some none
  unfolding late
  late-ne-ok text l h = ground arith

  confirmed_for :
      (i : ℕ) (nets : Reply (List String))
      → (looks i).nets ≡ nets
      → verify_round container network want deadline looks i ≡ some none
      → (ns : List String) × ((looks i).nets ≡ got ns) × (same (contains ns network) want ≡ true)
  unfolding verify_round
  confirmed_for i (failed err) e h = absurd (late-ne-ok err (looks i) (rw (verify_round, e) at h))
  confirmed_for i (got ns) e h = elim (Bool-cases (same (contains ns network) want)) [
    | inl as_wanted ↦ (ns, e, as_wanted)
    | inr other ↦ absurd (late-ne-ok _ (looks i) (rw (verify_round, e, other) at h))
  ]

  pub confirmed :
      (i : ℕ)
      → verify_round container network want deadline looks i ≡ some none
      → (ns : List String) × ((looks i).nets ≡ got ns) × (same (contains ns network) want ≡ true)
  confirmed i h = confirmed_for i (looks i).nets refl h

-- 18 rounds are enough.
pub verify_attachment-ends :
    (container network : String) (want : Bool) (began : ℕ) (looks : ℕ → Look)
    → IsPaced began looks
    → (r : Option String) × (verify_attachment 18 container network want began looks ≡ some r)
      × IsFirst (verify_round container network want (began + patience) looks) 0 r
unfolding verify_attachment
verify_attachment-ends container network want began looks p =
    rounds-ends (verify_round container network want (began + patience) looks) (λ i. (looks i).now)
      pause (began + patience) 17
      (λ i going. p.paced i (going-over container network want (began + patience) looks i going))
      (late-stops container network want (began + patience) looks) (omega (arith, p.first))
