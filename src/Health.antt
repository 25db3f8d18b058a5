-- ===== src/Health.antt =====
-- bsv-regtest/teranode/health.go: a node's health document, and the rows that it is flattened to. A
-- text is a list of its code points; the HTTP request and the JSON are left out, a document that
-- does not parse being none. The body of an answer is a list of bytes.
use chaos_test.Common.{
  ℕ, zero, suc, ◌+◌, ℤ, pos, negsuc, Bool, true, false, not, ◌&&◌, ◌||◌, Option, none, some, List,
  [], ◌∷◌, ◌++◌, map, ltb, leb, ◌==◌, if◌then◌else◌, length, take, keep,
}
use chaos_test.Common.Int.{eqb_ℤ}
use chaos_test.Logs.Cursor.{parse_int}
use chaos_test.Logs.Text.{Text, codes, text_eq, bytes}
pub mod Reached
pub mod Rows
pub mod Contents
pub mod Order
mod Examples

pub record Check : Type 0 where
  pub status : Text
  pub service : Text
  pub resource : Text
  pub error : Text
  pub message : Text

mutual
  -- `rawHealth`
  pub data Doc : Type 0 where
    doc : (here : Check) (services : Docs) (dependencies : Docs) → Doc

  pub data Docs : Type 0 where
    none_more : Docs
    and_more : (first : Doc) (rest : Docs) → Docs

pub record HealthDep : Type 0 where
  pub resource : Text
  pub status : ℤ
  pub error : Text
  pub message : Text
  pub seen_in : List Text
  pub is_ok : Bool

-- `key`
pub record Key : Type 0 where
  pub resource : Text
  pub status : Text
  pub error : Text

unfoldable pub key_eq : Key → Key → Bool
key_eq a b = text_eq a.resource b.resource && (text_eq a.status b.status && text_eq a.error b.error)

-- `out` and `idx`: the rows with their keys, in the order in which they were found.
abbrev pub Rows : Type 0
Rows = List (Key × HealthDep)

abbrev pub key_of : Check → Key
key_of c = record { resource = c.resource; status = c.status; error = c.error }

abbrev pub is_empty : Text → Bool
is_empty [] = true
is_empty (c ∷ s) = false

unfoldable pub contains_str : List Text → Text → Bool
contains_str [] s = false
contains_str (x ∷ list) s = let rest = contains_str list s in if text_eq x s then true else rest

are_digits : Text → Bool
are_digits [] = true
are_digits (c ∷ s) = leb 48 c && (leb c 57 && are_digits s)

-- What `strconv.Atoi` returns with an error: the nearest int64 where digits are out of range, else 0.
clamped : Text → ℤ
unfolding are_digits
clamped [] = pos 0
clamped (c ∷ []) = pos 0
clamped (c ∷ d ∷ s) =
    if not (are_digits (d ∷ s))
    then pos 0
    else if c == 45
    then negsuc 9223372036854775807
    else if c == 43 || are_digits (c ∷ [])
    then pos 9223372036854775807
    else pos 0

-- The number that `strconv.Atoi` returns, whether or not there is an error.
unfoldable pub atoi : Text → ℤ
unfolding clamped
atoi t = elim (parse_int t) [ some n ↦ n | none ↦ clamped t ]

unfoldable pub row_of : Check → HealthDep
row_of c =
    let status = atoi c.status in
    let err : Text = if text_eq c.error (codes "<nil>") then [] else c.error in
    record {
      resource = c.resource;
      status = status;
      error = err;
      message = c.message;
      seen_in = [];
      is_ok = eqb_ℤ status (pos 200) && is_empty err;
    }

unfoldable pub add_service : Text → HealthDep → HealthDep
add_service service d =
    if is_empty service || contains_str d.seen_in service
    then d
    else record d { seen_in = d.seen_in ++ service ∷ [] }

-- A check that has a resource: its row, made where its key is new, with the service.
unfoldable pub note_check : Text → Check → Rows → Rows
note_check service c [] = (key_of c, add_service service (row_of c)) ∷ []
note_check service c ((k, d) ∷ rows) =
    let below = note_check service c rows in
    if key_eq k (key_of c) then (k, add_service service d) ∷ rows else (k, d) ∷ below

unfoldable pub visit : Text → Check → Rows → Rows
visit service c rows = if is_empty c.resource then rows else note_check service c rows

-- The service that a document and what it holds are counted to.
abbrev pub service_at : Text → Check → Text
service_at service c = if is_empty c.service then service else c.service

-- The closure `walk`.
unfoldable mutual
  unfolding visit

  pub walk : Text → Doc → Rows → Rows
  walk service (doc c services dependencies) rows =
      let here = service_at service c in
      walk_all here dependencies (walk_all here services (visit here c rows))

  pub walk_all : Text → Docs → Rows → Rows
  walk_all service none_more rows = rows
  walk_all service (and_more first rest) rows = walk_all service rest (walk service first rows)

-- `<` on strings.
unfoldable pub text_less : Text → Text → Bool
text_less [] [] = false
text_less [] (b ∷ t) = true
text_less (a ∷ s) [] = false
text_less (a ∷ s) (b ∷ t) = let rest = text_less s t in if a == b then rest else ltb a b

-- Failures first, then by resource.
unfoldable pub row_less : HealthDep → HealthDep → Bool
row_less a b =
    if a.is_ok
    then b.is_ok && text_less a.resource b.resource
    else b.is_ok || text_less a.resource b.resource

-- `sort.SliceStable`, as it is specified: a row comes before the first one that is greater.
unfoldable pub insert_row : HealthDep → List HealthDep → List HealthDep
insert_row d [] = d ∷ []
insert_row d (e ∷ es) =
    let below = insert_row d es in if row_less d e then d ∷ e ∷ es else e ∷ below

insert_all : List HealthDep → List HealthDep → List HealthDep
insert_all [] sorted = sorted
insert_all (d ∷ ds) sorted = insert_all ds (insert_row d sorted)

unfoldable pub sort_rows : List HealthDep → List HealthDep
unfolding insert_all
sort_rows ds = insert_all ds []

unfoldable pub flatten_health : Doc → List HealthDep
flatten_health d = sort_rows (map (λ (r : Key × HealthDep). r.1) (walk [] d []))

pub record Health : Type 0 where
  pub overall_status : ℤ
  pub parsed : Bool
  pub raw : Text
  pub services : ℕ
  pub checks : ℕ
  pub deps : List HealthDep
  pub unhealthy : List Text

docs_length : Docs → ℕ
docs_length none_more = 0
docs_length (and_more first rest) = suc (docs_length rest)

-- A status of the document that is a number other than 0 goes before that of the answer.
overall : ℤ → Option ℤ → ℤ
overall code none = code
overall code (some n) = if eqb_ℤ n (pos 0) then code else n

truncate : Text → Text
truncate b = if ltb 300 (length b) then take 300 b ++ bytes (codes "…") else b

failing : List HealthDep → List Text
failing deps = map (λ (d : HealthDep). d.resource) (keep (λ d. not d.is_ok) deps)

-- `Get`, from the status of the answer, its body, and the document that it parses to.
unfoldable pub get_health : ℤ → Text → Option Doc → Health
unfolding docs_length overall truncate failing
get_health code body none = record {
  overall_status = code;
  parsed = false;
  raw = truncate body;
  services = 0;
  checks = 0;
  deps = [];
  unhealthy = [];
}
get_health code body (some (doc c services dependencies)) =
    let deps = flatten_health (doc c services dependencies) in
    record {
      overall_status = overall code (parse_int c.status);
      parsed = true;
      raw = [];
      services = docs_length services;
      checks = length deps;
      deps = deps;
      unhealthy = failing deps;
    }
