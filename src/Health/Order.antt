-- ===== src/Health/Order.antt =====
-- bsv-regtest/teranode/health.go: the order of the rows, and what `Get` says of the failing ones.
use mathlib.Core.List.{Perm, perm_middle, append-nil}
use mathlib.Core.List.Perm
use mathlib.Core.Path.{subst}
use chaos_test.Common.{
  ℕ, ◌<◌, ◌==◌, ◌≡◌, refl, ap, true, false, not, inl, inr, some, List, [], ◌∷◌, ◌++◌, map, arith,
  keep_none, take, length, All, All-map, Bool-cases, ℤ,
}
use chaos_test.Logs.Text.{Text}
use chaos_test.Health.Contents.{row_at, first_with, IsRow, row_at-IsRow}
use chaos_test.Health.{
  Check, Doc, doc, HealthDep, Key, Rows, walk, text_less, row_less, insert_row, insert_all,
  sort_rows, flatten_health, get_health, failing,
}
use chaos_test.Health.Reached.{has_row, listed, reaches, reaches_any, reached}
use chaos_test.Health.Rows.{AreRows, walk-rows}

text_less_asym : (s t : Text) → text_less s t ≡ true → text_less t s ≡ false
unfolding text_less
text_less_asym [] [] h = refl
text_less_asym [] (b ∷ t) h = refl
text_less_asym (a ∷ s) [] h = cc
text_less_asym (a ∷ s) (b ∷ t) h = ground (arith, h, text_less_asym s t)

text_less_trans :
    (s t u : Text) → text_less s t ≡ true → text_less t u ≡ true → text_less s u ≡ true
unfolding text_less
text_less_trans [] [] u h k = k
text_less_trans [] (b ∷ t) [] h k = cc
text_less_trans [] (b ∷ t) (c ∷ u) h k = refl
text_less_trans (a ∷ s) [] u h k = cc
text_less_trans (a ∷ s) (b ∷ t) [] h k = cc
text_less_trans (a ∷ s) (b ∷ t) (c ∷ u) h k = ground (arith, h, k, text_less_trans s t u)

row_less_asym : (d e : HealthDep) → row_less d e ≡ true → row_less e d ≡ false
unfolding row_less
row_less_asym d e h = ground (arith, h, text_less_asym d.resource e.resource)

-- What is not before a row is not before an earlier one.
row_less_trans :
    (f d e : HealthDep) → row_less d e ≡ true → row_less f e ≡ false → row_less f d ≡ false
unfolding row_less
row_less_trans f d e h k = ground (arith, h, k, text_less_trans f.resource d.resource e.resource)

-- No row stands behind a greater one.
abbrev pub IsSorted : List HealthDep → Type 0
IsSorted [] = Unit
IsSorted (d ∷ ds) = All (λ (e : HealthDep). row_less e d ≡ false) ds × IsSorted ds

insert_row-perm : (d : HealthDep) (ds : List HealthDep) → Perm (insert_row d ds) (d ∷ ds)
unfolding insert_row
insert_row-perm d [] = Perm.rfl
insert_row-perm d (e ∷ es) = elim (Bool-cases (row_less d e)) [
  | inl h ↦ rw (h, insert_row) Perm.rfl
  | inr h ↦ rw (h, insert_row) (Perm.trans (Perm.cons e (insert_row-perm d es)) (Perm.swap d e es))
]

insert_all-perm : (ds sorted : List HealthDep) → Perm (insert_all ds sorted) (ds ++ sorted)
unfolding insert_all
insert_all-perm [] sorted = Perm.rfl
insert_all-perm (d ∷ ds) sorted =
    Perm.trans (insert_all-perm ds (insert_row d sorted))
      (Perm.trans (Perm.append_left ds (insert_row-perm d sorted)) (perm_middle ds sorted))

-- What is before a row stands nowhere behind it, so nor behind what is inserted.
insert_row-All :
    (P : HealthDep → Type 0) (d : HealthDep) (ds : List HealthDep)
    → P d
    → All P ds
    → All P (insert_row d ds)
unfolding insert_row
insert_row-All P d [] h hs = (h, tt)
insert_row-All P d (e ∷ es) h hs = elim (Bool-cases (row_less d e)) [
  | inl b ↦ rw (b, insert_row) (h, hs)
  | inr b ↦ rw (b, insert_row) (hs.0, insert_row-All P d es h hs.1)
]

insert_row-IsSorted :
    (d : HealthDep) (ds : List HealthDep) → IsSorted ds → IsSorted (insert_row d ds)
unfolding insert_row
insert_row-IsSorted d [] h = (tt, tt)
insert_row-IsSorted d (e ∷ es) h = elim (Bool-cases (row_less d e)) [
  | inl b ↦
      let behind : All (λ (f : HealthDep). row_less f d ≡ false) es =
        All-map _ _ (λ f k. row_less_trans f d e b k) es h.0 in
      rw (b, insert_row) ((row_less_asym d e b, behind), h)
  | inr b ↦
      rw (b, insert_row)
        (
          insert_row-All (λ (f : HealthDep). row_less f e ≡ false) d es b h.0,
          insert_row-IsSorted d es h.1,
        )
]

insert_all-IsSorted :
    (ds sorted : List HealthDep) → IsSorted sorted → IsSorted (insert_all ds sorted)
unfolding insert_all
insert_all-IsSorted [] sorted h = h
insert_all-IsSorted (d ∷ ds) sorted h =
    insert_all-IsSorted ds (insert_row d sorted) (insert_row-IsSorted d sorted h)

-- The order of texts by their code points.
pub data IsLeq : Text → Text → Type 0 where
  ends : {t : Text} → IsLeq [] t
  earlier : {a b : ℕ} {s t : Text} → a < b → IsLeq (a ∷ s) (b ∷ t)
  alike : {a : ℕ} {s t : Text} → IsLeq s t → IsLeq (a ∷ s) (a ∷ t)

less-IsLeq : (s t : Text) → text_less t s ≡ false → IsLeq s t
unfolding text_less
less-IsLeq [] t h = ends
less-IsLeq (a ∷ s) [] h = cc
less-IsLeq (a ∷ s) (b ∷ t) h = elim (Bool-cases (b == a)) [
  | inl same ↦
      let it : b ≡ a = ground (arith, same) in
      rw it (alike (less-IsLeq s t (ground (arith, h, same))))
  | inr other ↦ earlier (ground (arith, h, other))
]

-- A row that may stand before another: no well one before a failing one, and of two that are alike in
-- this, none before one with a smaller resource.
abbrev pub MayPrecede : HealthDep → HealthDep → Type 0
MayPrecede d e =
    (d.is_ok ≡ true → e.is_ok ≡ true) × (d.is_ok ≡ e.is_ok → IsLeq d.resource e.resource)

less-MayPrecede : (d e : HealthDep) → row_less e d ≡ false → MayPrecede d e
unfolding row_less
less-MayPrecede d e h = (
  (λ ok. ground (arith, h, ok)),
  (λ same. less-IsLeq d.resource e.resource (ground (arith, h, same))),
)

abbrev pub IsOrdered : List HealthDep → Type 0
IsOrdered [] = Unit
IsOrdered (d ∷ ds) = All (MayPrecede d) ds × IsOrdered ds

sorted-IsOrdered : (ds : List HealthDep) → IsSorted ds → IsOrdered ds
sorted-IsOrdered [] h = tt
sorted-IsOrdered (d ∷ ds) h =
    (All-map _ _ (λ e later. less-MayPrecede d e later) ds h.0, sorted-IsOrdered ds h.1)

-- Of the rows that `flattenHealth` returns no well one stands before a failing one, and those that
-- are alike in this are in the order of their resources. They are a rearrangement of rows with keys
-- of which none comes twice: one for each combination of resource, status and error that a check of
-- the document has. The row of a key has the resource, the status, the error and the message of the
-- first check of that key, an error `<nil>` being none, and is well exactly if the status is 200 and
-- there is no error; its services are those that the checks of the key are reached through, each once.
pub flatten_health-rows :
    (d : Doc)
    → (rows : Rows) × IsOrdered (flatten_health d)
      × Perm (flatten_health d) (map (λ (r : Key × HealthDep). r.1) rows)
      × AreRows rows
      × ((k : Key) → has_row rows k ≡ reaches_any (reached [] d) k)
      × ((k : Key) (s : Text) → listed rows k s ≡ reaches (reached [] d) k s)
      × ((k : Key) (r : HealthDep)
          → row_at rows k ≡ some r
          → (c : Check) × (first_with (reached [] d) k ≡ some c) × IsRow c r)
unfolding flatten_health sort_rows
flatten_health-rows d =
    let rows : Rows = walk [] d [] in
    let found : List HealthDep = map (λ (r : Key × HealthDep). r.1) rows in
    let (well, keys, services) = walk-rows d in
    (
      rows,
      sorted-IsOrdered (insert_all found []) (insert_all-IsSorted found [] tt),
      subst (Perm (insert_all found [])) (append-nil found) (insert_all-perm found []),
      well,
      keys,
      services,
      row_at-IsRow d,
    )

-- Behind a row that is well no row fails.
ok_behind :
    (d : HealthDep) → d.is_ok ≡ true → (f : HealthDep) → row_less f d ≡ false → not f.is_ok ≡ false
unfolding row_less
ok_behind d e f h = ground (arith, e, h)

-- In order, the failing rows are the first ones.
failing-first :
    (ds : List HealthDep)
    → IsSorted ds
    → failing ds ≡ map (λ (d : HealthDep). d.resource) (take (length (failing ds)) ds)
unfolding failing
failing-first [] h = refl
failing-first (d ∷ ds) h = elim (Bool-cases d.is_ok) [
  | inl e ↦
      let fine : All (λ (f : HealthDep). not f.is_ok ≡ false) ds =
        All-map _ _ (ok_behind d e) ds h.0 in
      rw (e, keep_none (λ (f : HealthDep). not f.is_ok) ds fine)
  | inr e ↦ rw e (ap (◌∷◌ d.resource) (failing-first ds h.1))
]

-- Whatever the document: the resources that `Get` reports as unhealthy are those of its first rows.
pub get_health-unhealthy :
    (code : ℤ) (body : Text) (d : Doc)
    → let h = get_health code body (some d) in
      h.unhealthy ≡ map (λ (r : HealthDep). r.resource) (take (length h.unhealthy) h.deps)
unfolding get_health flatten_health sort_rows
get_health-unhealthy code body (doc c services dependencies) =
    failing-first (flatten_health (doc c services dependencies)) (
      insert_all-IsSorted
        (map (λ (r : Key × HealthDep). r.1) (walk [] (doc c services dependencies) [])) [] tt)
