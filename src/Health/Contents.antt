-- ===== src/Health/Contents.antt =====
-- bsv-regtest/teranode/health.go: what a row says, from the first check of its key.
use chaos_test.Common.{
  ◌≡◌, ◌≢◌, ◌↔◌, inl, inr, refl, sym, ap, ◌∙◌, ℤ, pos, negsuc, true, false, Option, none, some,
  List, [], ◌∷◌, arith, if◌then◌else◌, Bool-cases,
}
use chaos_test.Common.Int.{eqb_ℤ}
use chaos_test.Logs.Text.{Text, codes, text_eq, text_eq_iff}
use chaos_test.Health.{
  Check, Doc, HealthDep, Key, key_eq, Rows, key_of, is_empty, atoi, row_of, add_service, note_check,
  walk,
}
use chaos_test.Health.Reached.{note_all, reached, walk-reached, is_of, key_eq_iff, key_eq-of}

-- The first check of a key, and the row of a key.
pub first_with : List (Text × Check) → Key → Option Check
first_with [] k = none
first_with ((service, c) ∷ cs) k =
    let later = first_with cs k in if is_of c k then some c else later

pub row_at : Rows → Key → Option HealthDep
row_at [] k = none
row_at ((j, d) ∷ rows) k = let later = row_at rows k in if key_eq j k then some d else later

-- A row has the resource and the message of its check, the number of its status, and its error, where
-- that is not the text of a nil error; and it is well exactly if the status is 200 with no error.
pub record IsRow (c : Check) (d : HealthDep) : Type 0 where
  pub resource : d.resource ≡ c.resource
  pub message : d.message ≡ c.message
  pub status : d.status ≡ atoi c.status
  pub nil_error : c.error ≡ codes "<nil>" → d.error ≡ []
  pub error : c.error ≢ codes "<nil>" → d.error ≡ c.error
  pub well : (d.is_ok ≡ true) ↔ (d.status ≡ pos 200) × (d.error ≡ [])

-- A row without its services.
abbrev core : HealthDep → HealthDep
core d = record d { seen_in = [] }

core-add_service : (service : Text) (d : HealthDep) → core (add_service service d) ≡ core d
unfolding add_service
core-add_service service d = ground arith

core_at : Rows → Key → Option HealthDep
core_at [] k = none
core_at ((j, d) ∷ rows) k =
    let later = core_at rows k in if key_eq j k then some (core d) else later

or_core : Option HealthDep → Option HealthDep → Option HealthDep
or_core none later = later
or_core (some d) later = some d

core_first : List (Text × Check) → Key → Option HealthDep
core_first [] k = none
core_first ((service, c) ∷ cs) k =
    let later = core_first cs k in if is_of c k then some (core (row_of c)) else later

or_none : (a : Option HealthDep) → a ≡ or_core a none
unfolding or_core
or_none none = refl
or_none (some d) = refl

or_core_assoc : (a b c : Option HealthDep) → or_core (or_core a b) c ≡ or_core a (or_core b c)
unfolding or_core
or_core_assoc none b c = refl
or_core_assoc (some d) b c = refl

core_at-note_check :
    (service : Text) (c : Check) (rows : Rows) (k : Key)
    → core_at (note_check service c rows) k
      ≡ or_core (core_at rows k) (if is_of c k then some (core (row_of c)) else none)
unfolding core_at note_check or_core
core_at-note_check service c [] k =
    ground (arith, key_eq-of c k, core-add_service service (row_of c))
core_at-note_check service c ((j, d) ∷ rows) k =
    let rest = core_at-note_check service c rows k in
    elim (Bool-cases (key_eq j k)) [
      | inl own ↦ elim (Bool-cases (key_eq j (key_of c))) [
        | inl same ↦ rw (same, note_check) (rw own (ap some (core-add_service service d)))
        | inr new ↦ rw (new, note_check) (rw own refl)
      ]
      | inr other ↦ elim (Bool-cases (key_eq j (key_of c))) [
        | inl same ↦
            let not_its : is_of c k ≡ false =
              ground (arith, other, same, key_eq_iff j (key_of c), key_eq-of c k) in
            rw (same, note_check) (rw (other, not_its) (or_none (core_at rows k)))
        | inr new ↦ rw (new, note_check) (rw other rest)
      ]
    ]

core_at-note_all :
    (cs : List (Text × Check)) (rows : Rows) (k : Key)
    → core_at (note_all cs rows) k ≡ or_core (core_at rows k) (core_first cs k)
unfolding note_all core_first or_core
core_at-note_all [] rows k = or_none (core_at rows k)
core_at-note_all ((service, c) ∷ cs) rows k =
    let next = core_at-note_all cs (note_check service c rows) k in
    let here = core_at-note_check service c rows k in
    next
    ∙ ap (λ o. or_core o (core_first cs k)) here
    ∙ or_core_assoc (core_at rows k) (if is_of c k then some (core (row_of c)) else none)
        (core_first cs k)
    ∙ ap (or_core (core_at rows k)) (ground arith)

is_200 : (n : ℤ) → (eqb_ℤ n (pos 200) ≡ true) ↔ (n ≡ pos 200)
unfolding eqb_ℤ
is_200 (pos n) = (λ h. ap pos (ground (arith, h)), λ h. ground (arith, h))
is_200 (negsuc n) = (λ h. cc, λ h. cc)

none_left : (s : Text) → (is_empty s ≡ true) ↔ (s ≡ [])
none_left [] = (λ h. refl, λ h. refl)
none_left (c ∷ s) = (λ h. cc, λ h. cc)

row_of-IsRow : (c : Check) → IsRow c (row_of c)
unfolding row_of
row_of-IsRow c =
    let err : Text = if text_eq c.error (codes "<nil>") then [] else c.error in
    let nil = text_eq_iff c.error (codes "<nil>") in
    record {
      resource = refl;
      message = refl;
      status = refl;
      nil_error = λ h. ground (arith, h, nil);
      error = λ h. ground (arith, h, nil);
      well = (
        (λ h. (
          (is_200 (atoi c.status)).0 (ground (arith, h)),
          (none_left err).0 (ground (arith, h)),
        )),
        (λ h.
            let number = (is_200 (atoi c.status)).1 h.0 in
            let silent = (none_left err).1 h.1 in ground (arith, number, silent)),
      );
    }

IsRow-core : (c : Check) (d e : HealthDep) → core d ≡ core e → IsRow c e → IsRow c d
IsRow-core c d e same is =
    let resource : d.resource ≡ e.resource = ap (λ (x : HealthDep). x.resource) same in
    let message : d.message ≡ e.message = ap (λ (x : HealthDep). x.message) same in
    let status : d.status ≡ e.status = ap (λ (x : HealthDep). x.status) same in
    let err : d.error ≡ e.error = ap (λ (x : HealthDep). x.error) same in
    let ok : d.is_ok ≡ e.is_ok = ap (λ (x : HealthDep). x.is_ok) same in
    record {
      resource = resource ∙ is.resource;
      message = message ∙ is.message;
      status = status ∙ is.status;
      nil_error = λ h. err ∙ is.nil_error h;
      error = λ h. err ∙ is.error h;
      well = rw (ok, status, err) is.well;
    }

core_at-row :
    (rows : Rows) (k : Key) (d : HealthDep)
    → row_at rows k ≡ some d
    → core_at rows k ≡ some (core d)
unfolding row_at core_at
core_at-row [] k d h = cc
core_at-row ((j, e) ∷ rows) k d h = elim (Bool-cases (key_eq j k)) [
  | inl own ↦ let is : some e ≡ some d = rw (row_at, own) at h in rw own (cc)
  | inr other ↦ rw other (core_at-row rows k d (rw (row_at, other) at h))
]

core_first-check :
    (cs : List (Text × Check)) (k : Key) (x : HealthDep)
    → core_first cs k ≡ some x
    → (c : Check) × (first_with cs k ≡ some c) × (x ≡ core (row_of c))
unfolding core_first first_with
core_first-check [] k x h = cc
core_first-check ((service, c) ∷ cs) k x h = elim (Bool-cases (is_of c k)) [
  | inl own ↦
      let is : some (core (row_of c)) ≡ some x = rw (core_first, own) at h in (c, rw own refl, cc)
  | inr other ↦
      let (b, first, is) = core_first-check cs k x (rw (core_first, other) at h) in
      (b, rw other first, is)
]

-- The row of a key is that of the first check of the key.
pub row_at-IsRow :
    (d : Doc) (k : Key) (r : HealthDep)
    → row_at (walk [] d []) k ≡ some r
    → (c : Check) × (first_with (reached [] d) k ≡ some c) × IsRow c r
unfolding core_at or_core
row_at-IsRow d k r h =
    let whole : core_at (walk [] d []) k ≡ core_first (reached [] d) k =
      ap (λ rows. core_at rows k) (walk-reached [] d []) ∙ core_at-note_all (reached [] d) [] k in
    let (c, first, is) =
      core_first-check (reached [] d) k (core r) (sym whole ∙ core_at-row (walk [] d []) k r h) in
    (c, first, IsRow-core c r (row_of c) is (row_of-IsRow c))
