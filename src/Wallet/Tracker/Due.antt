-- ===== src/Wallet/Tracker/Due.antt =====
-- Which rows internal/walletsvc/tracker.go asks arcade about.
use Prim.Native.Nat.{min}
use mathlib.Core.List.{Perm}
use mathlib.Core.List.Perm
use chaos_test.Common.{
  String, not, map, keep, ℕ, zero, suc, ◌≤◌, ◌≡◌, refl, ap, Bool, true, false, List, [], ◌∷◌, ◌++◌,
  arith, ltb, if◌then◌else◌, length, take, drop, take-append-drop, length-take, All,
}
use chaos_test.Common.Dict.{Dict}
use chaos_test.Wallet.Tracker.{Tracker, Tracked}
use chaos_test.Wallet.Tracker.Poll.{Candidate, candidates, select, exchange_sort, due}

-- Oldest polled first.
abbrev pub Ascending : List Candidate → Type 0
Ascending [] = Unit
Ascending (x ∷ xs) = All (λ (y : Candidate). x.at ≤ y.at) xs × Ascending xs

length-select : (x : Candidate) (xs : List Candidate) → length (select x xs).1 ≡ length xs
unfolding select
length-select x [] = refl
length-select x (y ∷ ys) = ap suc (length-select (if ltb y.at x.at then y else x) ys)

select-le : (x : Candidate) (xs : List Candidate) → (select x xs).0.at ≤ x.at
unfolding select
select-le x [] = omega arith
select-le x (y ∷ ys) = ground (arith, select-le (if ltb y.at x.at then y else x) ys)

select_least :
    (x : Candidate) (xs : List Candidate)
    → All (λ (y : Candidate). (select x xs).0.at ≤ y.at) (select x xs).1
unfolding select
select_least x [] = tt
select_least x (y ∷ ys) = (
  ground (arith, select-le (if ltb y.at x.at then y else x) ys),
  select_least (if ltb y.at x.at then y else x) ys,
)

either_order :
    (b : Bool) (x y : Candidate) (ys : List Candidate)
    → Perm ((if b then x else y) ∷ (if b then y else x) ∷ ys) (x ∷ y ∷ ys)
either_order true x y ys = Perm.refl _
either_order false x y ys = Perm.swap x y ys

select-perm :
    (x : Candidate) (xs : List Candidate) → Perm ((select x xs).0 ∷ (select x xs).1) (x ∷ xs)
unfolding select
select-perm x [] = Perm.refl _
select-perm x (y ∷ ys) =
    let earlier : Candidate = if ltb y.at x.at then y else x in
    let later : Candidate = if ltb y.at x.at then x else y in
    Perm.trans (Perm.swap later (select earlier ys).0 (select earlier ys).1)
      (Perm.trans (Perm.cons later (select-perm earlier ys)) (either_order (ltb y.at x.at) x y ys))

exchange_sort-perm : (f : ℕ) (xs : List Candidate) → Perm (exchange_sort f xs) xs
unfolding exchange_sort
exchange_sort-perm zero xs = Perm.refl xs
exchange_sort-perm (suc f) [] = Perm.refl []
exchange_sort-perm (suc f) (x ∷ xs) =
    Perm.trans (Perm.cons _ (exchange_sort-perm f (select x xs).1)) (select-perm x xs)

-- A bound from below holds of the sorted list too.
select-All :
    (k : ℕ) (x : Candidate) (xs : List Candidate)
    → k ≤ x.at
    → All (λ (y : Candidate). k ≤ y.at) xs
    → (k ≤ (select x xs).0.at) × All (λ (y : Candidate). k ≤ y.at) (select x xs).1
unfolding select
select-All k x [] hx h = (hx, tt)
select-All k x (y ∷ ys) hx h =
    let rest : (k ≤ (select (if ltb y.at x.at then y else x) ys).0.at)
        × All (λ (z : Candidate). k ≤ z.at) (select (if ltb y.at x.at then y else x) ys).1 =
      select-All k (if ltb y.at x.at then y else x) ys (ground arith) h.1 in
    (rest.0, (ground arith, rest.1))

exchange_sort-All :
    (k f : ℕ) (xs : List Candidate)
    → All (λ (y : Candidate). k ≤ y.at) xs
    → All (λ (y : Candidate). k ≤ y.at) (exchange_sort f xs)
unfolding exchange_sort
exchange_sort-All k zero xs h = h
exchange_sort-All k (suc f) [] h = tt
exchange_sort-All k (suc f) (x ∷ xs) h =
    let s : (k ≤ (select x xs).0.at) × All (λ (y : Candidate). k ≤ y.at) (select x xs).1 =
      select-All k x xs h.0 h.1 in
    (s.0, exchange_sort-All k f (select x xs).1 s.1)

exchange_sort-Ascending :
    (f : ℕ) (xs : List Candidate) → length xs ≤ f → Ascending (exchange_sort f xs)
unfolding exchange_sort
exchange_sort-Ascending zero [] h = tt
exchange_sort-Ascending zero (x ∷ xs) h = elim h [ ]
exchange_sort-Ascending (suc f) [] h = tt
exchange_sort-Ascending (suc f) (x ∷ xs) h = (
  exchange_sort-All (select x xs).0.at f (select x xs).1 (select_least x xs),
  exchange_sort-Ascending f (select x xs).1 (omega (arith, length-select x xs)),
)

length-exchange_sort : (f : ℕ) (xs : List Candidate) → length (exchange_sort f xs) ≡ length xs
unfolding exchange_sort
length-exchange_sort zero xs = refl
length-exchange_sort (suc f) [] = refl
length-exchange_sort (suc f) (x ∷ xs) =
    omega (arith, length-exchange_sort f (select x xs).1, length-select x xs)

-- The rows that are not terminal.
abbrev pub open_rows : Dict Tracked → Dict Tracked
open_rows rows = keep (λ (r : String × Tracked). not r.1.row.terminal) rows

abbrev pub as_candidate : String × Tracked → Candidate
as_candidate r = record { id = r.0; at = r.1.last_polled }

candidates-open : (rows : Dict Tracked) → candidates rows ≡ map as_candidate (open_rows rows)
unfolding candidates
candidates-open [] = refl
candidates-open ((id, e) ∷ m) = ground (arith, candidates-open m)

length-as_candidate : (rows : Dict Tracked) → length (map as_candidate rows) ≡ length rows
length-as_candidate [] = refl
length-as_candidate (r ∷ rows) = ap suc (length-as_candidate rows)

-- What `due` returns, with what it leaves for later, is a rearrangement of the rows that are not
-- terminal, oldest polled first; so nothing left out was polled before anything returned. It returns
-- `limit` of them, or all where there are fewer.
pub due_oldest :
    (limit : ℕ) (t : Tracker)
    → (later : List Candidate) × Perm (due limit t ++ later) (map as_candidate (open_rows t.rows))
      × Ascending (due limit t ++ later)
      × (length (due limit t) ≡ min limit (length (open_rows t.rows)))
unfolding due
due_oldest limit t =
    let cs : List Candidate = candidates t.rows in
    let sorted : List Candidate = exchange_sort (length cs) cs in
    let whole : take limit sorted ++ drop limit sorted ≡ sorted = take-append-drop limit sorted in
    let is_open : cs ≡ map as_candidate (open_rows t.rows) = candidates-open t.rows in
    (
      drop limit sorted,
      rw whole (rw (← is_open) (exchange_sort-perm (length cs) cs)),
      rw whole (exchange_sort-Ascending (length cs) cs (omega arith)),
      omega (
        arith,
        length-take limit sorted,
        length-exchange_sort (length cs) cs,
        ap length is_open,
        length-as_candidate (open_rows t.rows),
      ),
    )
