-- ===== src/Api/Cutting.antt =====
-- What `Partition` of internal/api/server.go comes to, and what the fleet then has on record.
use chaos_test.Common.{
  ℕ, zero, suc, ◌+◌, ◌≤◌, ◌<◌, ◌≡◌, ◌≢◌, ◌⊎◌, refl, sym, ap, ◌∙◌, inl, inr, String, Bool, true, not,
  Option, none, some, List, [], ◌∷◌, ◌++◌, length, length-append, arith, Bool-cases, Option-cases,
}
use chaos_test.Common.Dict.{contains}
use chaos_test.Common.Rounds.{IsFirst}
use chaos_test.Topology.{Node, node}
use chaos_test.Wallet.Tracker.{Notice}
use chaos_test.Observe.Snapshot.{failed, got}
use chaos_test.Observe.Fleet.{Fleet, set_partition}
use chaos_test.Api.Attach.{
  verify_attachment, verify_attachment-ends, verify_round, IsPaced, same, patience, confirmed,
}
use chaos_test.Api.Partition.{
  Target, Attempt, target_of, is_refused, after_change, one_attempt, attempts, chaos_notice,
  Trouble, checked_attachment, trouble, finished, Partitioned, partition,
}

-- Some look of an attempt has found the attachment as it should be.
pub record IsConfirmed (t : Target) (on : Bool) (a : Attempt) : Type 0 where
  pub look : ℕ
  pub nets : List String
  pub listed : (a.looks look).nets ≡ got nets
  pub as_wanted : same (contains nets t.network) (not on) ≡ true

some-ne-none : (err : String) → some err ≢ none
some-ne-none err h = cc

failed-ne-got : {err : String} {ns : List String} → failed err ≢ got ns
failed-ne-got h = cc

abbrev pub ArePaced : (ℕ → Attempt) → Type 0
ArePaced tries = (i : ℕ) → IsPaced (tries i).began (tries i).looks

-- A loop with `left` attempts from attempt `i` on has a confirmed one, and fewer events than attempts.
abbrev Succeeds : Target → Bool → (ℕ → Attempt) → ℕ → ℕ → List Notice → Type 0
Succeeds t on tries i left said =
    (length said < left) × ((k : ℕ) × (i ≤ k) × (k < i + left) × IsConfirmed t on (tries k))

module _ (name plane : String) (on : Bool) (t : Target) where
  checked-for :
      (i : ℕ) (a : Attempt) (r : Option String)
      → verify_attachment 18 t.container t.network (not on) a.began a.looks ≡ some r
      → IsFirst (verify_round t.container t.network (not on) (a.began + patience) a.looks) 0 r
      → (x : Trouble) × (checked_attachment 18 name plane on t i a ≡ some x)
        × (x ≡ none → IsConfirmed t on a)
  unfolding checked_attachment
  checked-for i a none e h =
      let seen =
        confirmed t.container t.network (not on) (a.began + patience) a.looks h.at h.result in
      (
        none,
        rw (checked_attachment, e),
        λ _. record { look = h.at; nets = seen.0; listed = seen.1; as_wanted = seen.2 },
      )
  checked-for i a (some err) e h = (
    some (err, trouble name plane on " not effective" i err),
    rw (checked_attachment, e),
    λ x. cc,
  )

  checked-ends :
      (i : ℕ) (a : Attempt)
      → IsPaced a.began a.looks
      → (x : Trouble) × (checked_attachment 18 name plane on t i a ≡ some x)
        × (x ≡ none → IsConfirmed t on a)
  checked-ends i a p =
      let v = verify_attachment-ends t.container t.network (not on) a.began a.looks p in
      checked-for i a v.0 v.1 v.2

  after-ends :
      {P : Type 0} (i : ℕ) (change : Option String) {look : Option Trouble} {x : Trouble}
      → look ≡ some x
      → (x ≡ none → P)
      → (y : Trouble) × (after_change name plane on i change look ≡ some y) × (y ≡ none → P)
  unfolding after_change
  after-ends i none {x = x} e good = (x, e, good)
  after-ends i (some err) {x = x} e good = elim (Bool-cases (is_refused on err)) [
    | inl stop ↦
        (some (err, trouble name plane on " failed" i err), rw (after_change, stop), λ n. cc)
    | inr go ↦ (x, rw (after_change, go) e, good)
  ]

  -- What an attempt comes to: an error with its event, or that it is confirmed.
  one-ends :
      (i : ℕ) (a : Attempt)
      → IsPaced a.began a.looks
      → (x : Trouble) × (one_attempt 18 name plane on t i a ≡ some x)
        × (x ≡ none → IsConfirmed t on a)
  unfolding one_attempt
  one-ends i a p = let c = checked-ends i a p in after-ends i a.change c.1 c.2

  attempts-end :
      (tries : ℕ → Attempt)
      → ArePaced tries
      → (left i : ℕ) (err : Option String)
      → (e : Option String) × (said : List Notice) × (attempts 18 name plane on t tries left i err
          ≡ some (e, said))
        × (length said ≤ left)
        × (e ≡ none → (err ≡ none) × (left ≡ 0) ⊎ Succeeds t on tries i left said)
  unfolding attempts
  attempts-end tries p zero i err = (err, [], refl, omega arith, λ h. inl (h, refl))
  attempts-end tries p (suc left) i err =
      let one = one-ends i (tries i) (p i) in
      elim (Option-cases one.0) [
        | inl good ↦
            let now : one_attempt 18 name plane on t i (tries i) ≡ some none =
              one.1 ∙ ap some good in
            (
              none,
              [],
              rw (attempts, now),
              omega arith,
              λ h. inr (omega arith, (i, omega arith, omega arith, one.2 good)),
            )
        | inr ((err', said), bad) ↦
            let now : one_attempt 18 name plane on t i (tries i) ≡ some (some (err', said)) =
              one.1 ∙ ap some bad in
            let rest = attempts-end tries p left (i + 1) (some err') in
            (
              rest.0,
              said ∷ rest.1,
              rw (attempts, now, rest.2),
              omega (arith, rest.3),
              λ h. elim (rest.4 h) [
                | inl (no_err, _) ↦ absurd (some-ne-none err' no_err)
                | inr (few, (k, low, high, c)) ↦
                    inr (omega (arith, few), (k, omega arith, omega arith, c))
              ],
            )
      ]

-- What is left of the call, for the loop's end.
finished-for :
    (name plane : String) (on : Bool) (f : Fleet) (t : Target) (tries : ℕ → Attempt)
    (e : Option String) (said : List Notice) {all : Option Partitioned}
    → all ≡ finished name plane on f (some (e, said))
    → length said ≤ 3
    → (e ≡ none → Succeeds t on tries 1 3 said)
    → (p : Partitioned) × (all ≡ some p)
      × (length p.said ≤ 3)
      × ((p.err ≡ none)
            × (p.fleet ≡ set_partition name plane on f)
            × ((k : ℕ) × (1 ≤ k) × (k ≤ 3) × IsConfirmed t on (tries k))
          ⊎ (p.err ≢ none) × (p.fleet ≡ f))
unfolding finished
finished-for name plane on f t tries (some err) said whole few good =
    (record { err = some err; said = said; fleet = f }, whole, few, inr (some-ne-none err, refl))
finished-for name plane on f t tries none said whole few good =
    let (fewer, (k, low, high, c)) = good refl in
    (
      record {
        err = none;
        said = said ++ chaos_notice name plane on ∷ [];
        fleet = set_partition name plane on f;
      },
      whole,
      omega (arith, fewer, length-append said (chaos_notice name plane on ∷ [])),
      inl (refl, refl, (k, low, omega arith, c)),
    )

-- Where the pauses last as long as they are asked to: a call for a node of the inventory and a plane
-- that it has returns, with fuel 18 for each verification, and publishes three events at most. If it
-- returns no error, a look of one of its three attempts has found the attachment as it should be, and
-- the fleet has the plane on record as asked; if it returns an error, the fleet is as it was.
pub partition-ends :
    (ref plane : String) (on : Bool) (tries : ℕ → Attempt) (f : Fleet) (n : Node) (t : Target)
    → node ref f.inv ≡ some n
    → target_of f.inv n plane ≡ got t
    → ArePaced tries
    → (p : Partitioned) × (partition 18 ref plane on tries f ≡ some p)
      × (length p.said ≤ 3)
      × ((p.err ≡ none)
            × (p.fleet ≡ set_partition n.name plane on f)
            × ((k : ℕ) × (1 ≤ k) × (k ≤ 3) × IsConfirmed t on (tries k))
          ⊎ (p.err ≢ none) × (p.fleet ≡ f))
unfolding partition finished
partition-ends ref plane on tries f n t known targeted paced =
    let end = attempts-end n.name plane on t tries paced 3 1 none in
    finished-for n.name plane on f t tries end.0 end.1
      (rw (partition, known, targeted, finished) (ap (finished n.name plane on f) end.2)) end.3
      (λ ok. elim (end.4 ok) [ inl (_, three) ↦ absurd (omega (arith, three)) | inr s ↦ s ])

-- Where the pauses last as long as they are asked to and no look can read the container's networks:
-- the call returns an error and the fleet has nothing new on record, whatever the changes themselves
-- answered, so also where they were carried out.
pub partition-blind :
    (ref plane : String) (on : Bool) (tries : ℕ → Attempt) (f : Fleet) (n : Node) (t : Target)
    (err : ℕ → ℕ → String)
    → node ref f.inv ≡ some n
    → target_of f.inv n plane ≡ got t
    → ArePaced tries
    → ((i j : ℕ) → ((tries i).looks j).nets ≡ failed (err i j))
    → (p : Partitioned) × (partition 18 ref plane on tries f ≡ some p)
      × (p.err ≢ none)
      × (p.fleet ≡ f)
partition-blind ref plane on tries f n t err known targeted paced blind =
    let end = partition-ends ref plane on tries f n t known targeted paced in
    elim end.3 [
      | inl (_, _, (k, _, _, c)) ↦
          let unread : failed (err k c.look) ≡ got c.nets = sym (blind k c.look) ∙ c.listed in
          absurd (failed-ne-got unread)
      | inr (bad, same_fleet) ↦ (end.0, end.1, bad, same_fleet)
    ]
