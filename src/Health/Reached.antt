-- ===== src/Health/Reached.antt =====
-- bsv-regtest/teranode/health.go: the rows and the services through which their checks are reached.
use chaos_test.Common.{
  ◌≡◌, refl, ap, sym, ◌∙◌, Bool, true, false, not, ◌&&◌, ◌||◌, List, [], ◌∷◌, ◌++◌, arith,
  if◌then◌else◌, Bool-cases, inl, inr, ◌↔◌,
}
use chaos_test.Logs.Text.{Text, text_eq, text_eq_iff}
use chaos_test.Health.{
  Check, Doc, doc, Docs, none_more, and_more, HealthDep, Key, key_eq, Rows, key_of, is_empty,
  contains_str, row_of, add_service, note_check, visit, service_at, walk, walk_all,
}

pub has_text : Text → Bool
has_text [] = false
has_text (c ∷ s) = true

-- The service that is nearest above a check.
abbrev pub nearest : Text → Check → Text
nearest service c = if has_text c.service then c.service else service

-- The checks of a document that have a resource, with the services that they are reached through, in
-- the order of the document.
mutual
  pub reached : Text → Doc → List (Text × Check)
  reached service (doc c services dependencies) =
      let here = nearest service c in
      let below = reached_all here services ++ reached_all here dependencies in
      if has_text c.resource then (here, c) ∷ below else below

  pub reached_all : Text → Docs → List (Text × Check)
  reached_all service none_more = []
  reached_all service (and_more first rest) = reached service first ++ reached_all service rest

is_empty-text : (s : Text) → is_empty s ≡ not (has_text s)
unfolding has_text
is_empty-text [] = refl
is_empty-text (c ∷ s) = refl

service_at-nearest : (service : Text) (c : Check) → service_at service c ≡ nearest service c
service_at-nearest service c = ground (arith, is_empty-text c.service)

unfoldable pub note_all : List (Text × Check) → Rows → Rows
note_all [] rows = rows
note_all ((service, c) ∷ cs) rows = note_all cs (note_check service c rows)

note_all-append :
    (xs ys : List (Text × Check)) (rows : Rows)
    → note_all (xs ++ ys) rows ≡ note_all ys (note_all xs rows)
unfolding note_all
note_all-append [] ys rows = refl
note_all-append ((service, c) ∷ xs) ys rows = note_all-append xs ys (note_check service c rows)

mutual
  unfolding walk reached note_all

  pub walk-reached :
      (service : Text) (d : Doc) (rows : Rows)
      → walk service d rows ≡ note_all (reached service d) rows
  walk-reached service (doc c services dependencies) rows =
      let here : Text = nearest service c in
      let below : (rs : Rows)
          → walk_all here dependencies (walk_all here services rs)
            ≡ note_all (reached_all here services ++ reached_all here dependencies) rs =
        λ rs.
          ap (walk_all here dependencies) (walk_all-reached here services rs)
          ∙ walk_all-reached here dependencies (note_all (reached_all here services) rs)
          ∙ sym (note_all-append (reached_all here services) (reached_all here dependencies) rs) in
      let empty : is_empty c.resource ≡ not (has_text c.resource) = is_empty-text c.resource in
      rw (service_at-nearest service c) (elim (Bool-cases (has_text c.resource)) [
        | inl e ↦ rw (visit, empty, e) (below (note_check here c rows))
        | inr e ↦ rw (visit, empty, e) (below rows)
      ])

  walk_all-reached :
      (service : Text) (ds : Docs) (rows : Rows)
      → walk_all service ds rows ≡ note_all (reached_all service ds) rows
  walk_all-reached service none_more rows = refl
  walk_all-reached service (and_more first rest) rows =
      ap (walk_all service rest) (walk-reached service first rows)
      ∙ walk_all-reached service rest (note_all (reached service first) rows)
      ∙ sym (note_all-append (reached service first) (reached_all service rest) rows)

-- Whether the row of a key says that it was seen in a service.
unfoldable pub listed : Rows → Key → Text → Bool
listed [] k s = false
listed ((j, d) ∷ rows) k s =
    let later = listed rows k s in if key_eq j k then contains_str d.seen_in s else later

unfoldable pub has_row : Rows → Key → Bool
has_row [] k = false
has_row ((j, d) ∷ rows) k = let later = has_row rows k in if key_eq j k then true else later

-- Whether a check has the resource, the status and the error of a key.
pub is_of : Check → Key → Bool
is_of c k = text_eq c.resource k.resource && (text_eq c.status k.status && text_eq c.error k.error)

-- Whether a check with the key is reached through the service, the empty one not counting.
pub reaches : List (Text × Check) → Key → Text → Bool
reaches [] k s = false
reaches ((service, c) ∷ cs) k s =
    (is_of c k && (has_text service && text_eq service s)) || reaches cs k s

pub reaches_any : List (Text × Check) → Key → Bool
reaches_any [] k = false
reaches_any ((service, c) ∷ cs) k = is_of c k || reaches_any cs k

pub key_eq-of : (c : Check) (k : Key) → key_eq (key_of c) k ≡ is_of c k
unfolding key_eq is_of
key_eq-of c k = refl

pub key_eq_iff : (a b : Key) → (key_eq a b ≡ true) ↔ (a ≡ b)
unfolding key_eq
key_eq_iff a b = (
  (λ h. ground (
    arith,
    h,
    text_eq_iff a.resource b.resource,
    text_eq_iff a.status b.status,
    text_eq_iff a.error b.error,
  )),
  (λ h. ground (
    arith,
    ap (λ (k : Key). k.resource) h,
    ap (λ (k : Key). k.status) h,
    ap (λ (k : Key). k.error) h,
    text_eq_iff a.resource b.resource,
    text_eq_iff a.status b.status,
    text_eq_iff a.error b.error,
  )),
)

pub contains_str-append :
    (list : List Text) (s t : Text)
    → contains_str (list ++ s ∷ []) t ≡ (contains_str list t || text_eq s t)
unfolding contains_str
contains_str-append [] s t = ground arith
contains_str-append (x ∷ list) s t = ground (arith, contains_str-append list s t)

contains_str-add_service :
    (service : Text) (d : HealthDep) (s : Text)
    → contains_str (add_service service d).seen_in s
      ≡ (contains_str d.seen_in s || (not (is_empty service) && text_eq service s))
unfolding add_service
contains_str-add_service service d s =
    ground (arith, contains_str-append d.seen_in service s, text_eq_iff service s)

seen_nowhere : (c : Check) (s : Text) → contains_str (row_of c).seen_in s ≡ false
unfolding contains_str row_of
seen_nowhere c s = refl

listed-note_check :
    (service : Text) (c : Check) (rows : Rows) (k : Key) (s : Text)
    → listed (note_check service c rows) k s
      ≡ (listed rows k s || (key_eq (key_of c) k && (not (is_empty service) && text_eq service s)))
unfolding listed note_check
listed-note_check service c [] k s =
    ground (arith, contains_str-add_service service (row_of c) s, seen_nowhere c s)
listed-note_check service c ((j, d) ∷ rows) k s = ground (
  arith,
  contains_str-add_service service d s,
  listed-note_check service c rows k s,
  key_eq_iff j (key_of c),
  key_eq_iff j k,
  key_eq_iff (key_of c) k,
)

pub has_row-note_check :
    (service : Text) (c : Check) (rows : Rows) (k : Key)
    → has_row (note_check service c rows) k ≡ (has_row rows k || key_eq (key_of c) k)
unfolding has_row note_check
has_row-note_check service c [] k = ground arith
has_row-note_check service c ((j, d) ∷ rows) k =
    ground (arith, has_row-note_check service c rows k, key_eq_iff j (key_of c), key_eq_iff j k)

pub listed-note_all :
    (cs : List (Text × Check)) (rows : Rows) (k : Key) (s : Text)
    → listed (note_all cs rows) k s ≡ (listed rows k s || reaches cs k s)
unfolding note_all reaches
listed-note_all [] rows k s = ground arith
listed-note_all ((service, c) ∷ cs) rows k s = ground (
  arith,
  listed-note_all cs (note_check service c rows) k s,
  listed-note_check service c rows k s,
  key_eq-of c k,
  is_empty-text service,
)

pub has_row-note_all :
    (cs : List (Text × Check)) (rows : Rows) (k : Key)
    → has_row (note_all cs rows) k ≡ (has_row rows k || reaches_any cs k)
unfolding note_all reaches_any
has_row-note_all [] rows k = ground arith
has_row-note_all ((service, c) ∷ cs) rows k = ground (
  arith,
  has_row-note_all cs (note_check service c rows) k,
  has_row-note_check service c rows k,
  key_eq-of c k,
)
