-- ===== src/Api/Funding/Coinbases.antt =====
-- Which coinbase `findSpendableCoinbase` of internal/api/wallet.go picks.
use chaos_test.Common.{
  ◌≢◌, ap, str_eq, eq_iff, ℕ, zero, suc, ◌+◌, ◌-◌, ◌≤◌, ◌<◌, ◌≡◌, ◌⊎◌, refl, ◌∙◌, inl, inr, String,
  Bool, true, false, none, some, arith, ltb, ◌==◌, Bool-cases, Option-cases,
}
use chaos_test.Observe.Snapshot.{Reply, failed, got}
use chaos_test.Api.Funding.{
  Coinbase, is_spendable, search, search_from, found, find_spendable_coinbase,
}

-- A coinbase that the search may return.
unfoldable pub is_usable : Coinbase → Bool
is_usable c = elim c.found [ failed err ↦ false | got txid ↦ is_spendable c.view ]

-- Refresh failed on it, or showed it as OK.
abbrev pub IsSpendable : Reply String → Type 0
IsSpendable view = ((err : String) × (view ≡ failed err)) ⊎ (view ≡ got "OK")

-- Its id was not to be had, or Refresh showed it as something else.
abbrev pub IsOut : Coinbase → Type 0
IsOut c =
    ((err : String) × (c.found ≡ failed err))
    ⊎ ((status : String) × (c.view ≡ got status) × (status ≢ "OK"))

spendable : (view : Reply String) → is_spendable view ≡ true → IsSpendable view
unfolding is_spendable
spendable (failed err) h = inl (err, refl)
spendable (got status) h = inr (ap got ((eq_iff status "OK").0 h))

unspendable :
    (view : Reply String)
    → is_spendable view ≡ false
    → (status : String) × (view ≡ got status) × (status ≢ "OK")
unfolding is_spendable
unspendable (failed err) h = cc
unspendable (got status) h =
    (status, refl, λ ok. let yes : str_eq status "OK" ≡ true = (eq_iff status "OK").1 ok in cc)

usable_cases : (c : Coinbase) (id : Reply String) → c.found ≡ id → is_usable c ≡ false → IsOut c
unfolding is_usable
usable_cases c (failed err) e h = inl (err, e)
usable_cases c (got txid) e h = inr (unspendable c.view (rw (is_usable, e) at h))

out : (c : Coinbase) → is_usable c ≡ false → IsOut c
out c h = usable_cases c c.found refl h

-- The highest coinbase that may be returned, at most `left` heights below h.
pub record IsHighest (at : ℕ → Coinbase) (h left : ℕ) (txid : String) (k : ℕ) : Type 0 where
  pub above_zero : 1 ≤ k
  pub below : k ≤ h
  pub near : h < k + left
  pub there : (at k).found ≡ got txid
  pub unspent : is_spendable (at k).view ≡ true
  pub highest : (j : ℕ) → k < j → j ≤ h → is_usable (at j) ≡ false

IsHighest-suc :
    (at : ℕ → Coinbase) (h left : ℕ) {txid : String} {k : ℕ}
    → is_usable (at (suc h)) ≡ false
    → IsHighest at h left txid k
    → IsHighest at (suc h) (suc left) txid k
IsHighest-suc at h left {txid} {k} no_use p = record {
  above_zero = p.above_zero;
  below = omega (arith, p.below);
  near = omega (arith, p.near);
  there = p.there;
  unspent = p.unspent;
  highest = λ j low high. elim (Bool-cases (j == suc h)) [
    | inl top ↦ let it : j ≡ suc h = ground (arith, top) in rw it no_use
    | inr other ↦ p.highest j low (ground (arith, other))
  ];
}

IsHighest-here :
    (at : ℕ → Coinbase) (h left : ℕ) {txid : String}
    → (at (suc h)).found ≡ got txid
    → is_spendable (at (suc h)).view ≡ true
    → IsHighest at (suc h) (suc left) txid (suc h)
IsHighest-here at h left e use_ = record {
  above_zero = omega arith;
  below = omega arith;
  near = omega arith;
  there = e;
  unspent = use_;
  highest = λ j low high. absurd (omega arith);
}

module _ (at : ℕ → Coinbase) where
  search-step :
      (h left : ℕ) (c : Reply String) {txid : String} {k : ℕ}
      → (at (suc h)).found ≡ c
      → search at (suc h) (suc left) ≡ some (txid, k)
      → (is_usable (at (suc h)) ≡ false) × (search at h left ≡ some (txid, k))
        ⊎ (c ≡ got txid) × (is_spendable (at (suc h)).view ≡ true) × (suc h ≡ k)
  unfolding search is_usable
  search-step h left (failed err) e s = inl (rw (is_usable, e), rw (search, e) at s)
  search-step h left (got t) e s = elim (Bool-cases (is_spendable (at (suc h)).view)) [
    | inl use_ ↦ let is : some (t, suc h) ≡ some _ = rw (search, e, use_) at s in inr (cc, use_, cc)
    | inr spent ↦ inl (rw (is_usable, e) spent, rw (search, e, spent) at s)
  ]

  search-IsHighest :
      (h left : ℕ) {txid : String} {k : ℕ}
      → search at h left ≡ some (txid, k)
      → IsHighest at h left txid k
  unfolding search
  search-IsHighest h zero s = cc
  search-IsHighest zero (suc left) s = cc
  search-IsHighest (suc h) (suc left) s = elim (search-step h left (at (suc h)).found refl s) [
    | inl (no_use, later) ↦ IsHighest-suc at h left no_use (search-IsHighest h left later)
    | inr (e, use_, same) ↦ rw (← same) (IsHighest-here at h left e use_)
  ]

  search-step_none :
      (h left : ℕ) (c : Reply String)
      → (at (suc h)).found ≡ c
      → search at (suc h) (suc left) ≡ none
      → (is_usable (at (suc h)) ≡ false) × (search at h left ≡ none)
  unfolding search is_usable
  search-step_none h left (failed err) e s = (rw (is_usable, e), rw (search, e) at s)
  search-step_none h left (got t) e s = elim (Bool-cases (is_spendable (at (suc h)).view)) [
    | inl use_ ↦ let stop = rw (search, e, use_) at s in cc stop
    | inr spent ↦ (rw (is_usable, e) spent, rw (search, e, spent) at s)
  ]

  search-none :
      (h left : ℕ)
      → search at h left ≡ none
      → (j : ℕ) → 1 ≤ j
      → j ≤ h
      → h < j + left
      → is_usable (at j) ≡ false
  search-none h zero s j low high near = absurd (omega arith)
  search-none zero (suc left) s j low high near = absurd (omega arith)
  search-none (suc h) (suc left) s j low high near =
      let (no_use, later) = search-step_none h left (at (suc h)).found refl s in
      elim (Bool-cases (j == suc h)) [
        | inl top ↦ let it : j ≡ suc h = ground (arith, top) in rw it no_use
        | inr other ↦ search-none h left later j low (ground (arith, other)) (omega arith)
      ]

  search_from-IsHighest :
      (tip : ℕ) {txid : String} {h : ℕ}
      → search_from at tip ≡ found txid h
      → IsHighest at (tip - 100) 25 txid h
  unfolding search_from
  search_from-IsHighest tip s = elim (Option-cases (search at (tip - 100) 25)) [
    | inl nothing ↦ let stop = rw (search_from, nothing) at s in cc stop
    | inr ((t, k), hit) ↦
        let is = rw (search_from, hit) at s in search-IsHighest (tip - 100) 25 (hit ∙ cc is)
  ]

  -- Where it stands against the tip.
  abbrev pub IsMature : ℕ → String → ℕ → Type 0
  IsMature t txid h =
      (h + 100 ≤ t)
      × (t ≤ h + 124)
      × ((at h).found ≡ got txid)
      × IsSpendable (at h).view
      × ((j : ℕ) → h < j → j + 100 ≤ t → IsOut (at j))

  highest-IsMature :
      (t : ℕ) {txid : String} {h : ℕ} → IsHighest at (t - 100) 25 txid h → IsMature t txid h
  highest-IsMature t {h = h} p = (
    omega (arith, p.below, p.above_zero),
    omega (arith, p.near),
    p.there,
    spendable (at h).view p.unspent,
    λ j low high. out (at j) (p.highest j low (omega (arith, high))),
  )

mined-IsMature :
    (low : ℕ) (mined : ℕ → Reply ℕ) (at : ℕ → Coinbase) (answer : Reply ℕ) {txid : String} {h : ℕ}
    → mined (101 - low + 1) ≡ answer
    → ltb low 101 ≡ true
    → find_spendable_coinbase (got low) true mined at ≡ found txid h
    → (t : ℕ) × (mined (101 - low + 1) ≡ got t) × IsMature at t txid h
unfolding find_spendable_coinbase
mined-IsMature low mined at (failed err) is is_low e =
    let stop = rw (find_spendable_coinbase, is_low, is) at e in cc stop
mined-IsMature low mined at (got t) is is_low e =
    let hit = rw (find_spendable_coinbase, is_low, is) at e in
    (t, is, highest-IsMature at t (search_from-IsHighest at t hit))

IsMature-after :
    (low : ℕ) (mine : Bool) (mined : ℕ → Reply ℕ) (at : ℕ → Coinbase) {txid : String} {h : ℕ}
    → ltb low 101 ≡ true
    → find_spendable_coinbase (got low) mine mined at ≡ found txid h
    → (t : ℕ) × (mined (101 - low + 1) ≡ got t) × IsMature at t txid h
unfolding find_spendable_coinbase
IsMature-after low false mined at is_low e =
    let stop = rw (find_spendable_coinbase, is_low) at e in cc stop
IsMature-after low true mined at is_low e =
    mined-IsMature low mined at (mined (101 - low + 1)) refl is_low e

-- A coinbase that the search finds is mature at the tip that it goes by, which is the node's tip, or,
-- where that is below 101, the tip after mining the blocks that lead from it to 102: it stands at
-- least 100 and at most 124 blocks below that tip, and Refresh failed on it or showed it as OK; of
-- each higher coinbase that is mature, the id was not to be had or Refresh showed another status.
pub find_spendable_coinbase-IsMature :
    (tip : Reply ℕ) (mine : Bool) (mined : ℕ → Reply ℕ) (at : ℕ → Coinbase) (txid : String) (h : ℕ)
    → find_spendable_coinbase tip mine mined at ≡ found txid h
    → (t : ℕ) × ((tip ≡ got t) × (101 ≤ t)
        ⊎ ((low : ℕ) × (tip ≡ got low) × (low < 101) × (mined (102 - low) ≡ got t)))
      × IsMature at t txid h
unfolding find_spendable_coinbase
find_spendable_coinbase-IsMature (failed err) mine mined at txid h e = cc
find_spendable_coinbase-IsMature (got t) mine mined at txid h e = elim (Bool-cases (ltb t 101)) [
  | inl low ↦
      let (t', is, mature) = IsMature-after t mine mined at low e in
      let below : t < 101 = ground (arith, low) in
      let blocks : 101 - t + 1 ≡ 102 - t = omega arith in
      (t', inr (t, refl, below, rw (← blocks) is), mature)
  | inr high ↦
      let hit = rw (find_spendable_coinbase, high) at e in
      (t, inl (refl, ground (arith, high)), highest-IsMature at t (search_from-IsHighest at t hit))
]
