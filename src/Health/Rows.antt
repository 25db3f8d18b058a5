-- ===== src/Health/Rows.antt =====
-- bsv-regtest/teranode/health.go: every row is there once, and names a service once.
use chaos_test.Common.{◌≡◌, refl, false, ◌||◌, List, [], ◌∷◌, ◌++◌, arith, Bool-cases, inl, inr}
use chaos_test.Logs.Text.{Text, text_eq_iff}
use chaos_test.Health.{
  Check, Doc, HealthDep, Key, key_eq, Rows, key_of, is_empty, contains_str, row_of, add_service,
  note_check, walk,
}
use chaos_test.Health.Reached.{
  note_all, key_eq_iff, contains_str-append, has_row-note_check, listed-note_all, has_row-note_all,
  walk-reached, reached, has_row, listed, reaches, reaches_any,
}

-- No key has two rows, and no row lists a service twice.
abbrev pub NoneTwice : List Text → Type 0
NoneTwice [] = Unit
NoneTwice (s ∷ list) = (contains_str list s ≡ false) × NoneTwice list

abbrev pub AreRows : Rows → Type 0
AreRows [] = Unit
AreRows ((k, d) ∷ rows) = ((has_row rows k ≡ false) × NoneTwice d.seen_in) × AreRows rows

NoneTwice-append :
    (list : List Text) (s : Text)
    → contains_str list s ≡ false
    → NoneTwice list
    → NoneTwice (list ++ s ∷ [])
unfolding contains_str
NoneTwice-append [] s h d = (refl, tt)
NoneTwice-append (x ∷ list) s h d = (
  ground (arith, h, d.0, contains_str-append list s x, text_eq_iff x s, text_eq_iff s x),
  NoneTwice-append list s (ground (arith, h)) d.1,
)

add_service-NoneTwice :
    (service : Text) (d : HealthDep)
    → NoneTwice d.seen_in
    → NoneTwice (add_service service d).seen_in
unfolding add_service
add_service-NoneTwice service d h =
    elim (Bool-cases (is_empty service || contains_str d.seen_in service)) [
      | inl e ↦ rw e h
      | inr e ↦ rw e (NoneTwice-append d.seen_in service (ground (arith, e)) h)
    ]

note_check-AreRows :
    (service : Text) (c : Check) (rows : Rows) → AreRows rows → AreRows (note_check service c rows)
unfolding note_check row_of has_row
note_check-AreRows service c [] h = ((refl, add_service-NoneTwice service (row_of c) tt), tt)
note_check-AreRows service c ((k, d) ∷ rows) h = elim (Bool-cases (key_eq k (key_of c))) [
  | inl e ↦ rw (e, note_check) ((h.0.0, add_service-NoneTwice service d h.0.1), h.1)
  | inr e ↦
      rw (e, note_check)
        (
          (
            ground (
              arith,
              h.0.0,
              has_row-note_check service c rows k,
              key_eq_iff k (key_of c),
              key_eq_iff (key_of c) k,
              e,
            ),
            h.0.1,
          ),
          note_check-AreRows service c rows h.1,
        )
]

note_all-AreRows :
    (cs : List (Text × Check)) (rows : Rows) → AreRows rows → AreRows (note_all cs rows)
unfolding note_all
note_all-AreRows [] rows h = h
note_all-AreRows ((service, c) ∷ cs) rows h =
    note_all-AreRows cs _ (note_check-AreRows service c rows h)

-- The rows of a document: one for each key of a check, with the services that the checks of that key
-- are reached through.
pub walk-rows :
    (d : Doc)
    → AreRows (walk [] d [])
      × ((k : Key) → has_row (walk [] d []) k ≡ reaches_any (reached [] d) k)
      × ((k : Key) (s : Text) → listed (walk [] d []) k s ≡ reaches (reached [] d) k s)
unfolding has_row listed
walk-rows d = rw (walk-reached [] d []) (
  note_all-AreRows (reached [] d) [] tt,
  (λ k. has_row-note_all (reached [] d) [] k),
  (λ k s. listed-note_all (reached [] d) [] k s),
)
