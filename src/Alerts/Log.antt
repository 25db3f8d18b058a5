-- ===== src/Alerts/Log.antt =====
-- bsv-regtest/alerts/log.go: the publisher's record of the alerts that it has built, by sequence
-- number. The descriptive text of an entry and the file are left out; a failed save is an answer.
pub mod Fresh
pub mod Listing
use Prim.Native.Nat.{max}
use chaos_test.Common.{
  ℕ, ◌≤◌, ◌≡◌, refl, inl, inr, String, Option, none, some, List, [], ◌∷◌, arith, ltb, ◌==◌, str_eq,
  eq_iff, if◌then◌else◌, Bool-cases, Option-cases,
}
use chaos_test.Alerts.{Bytes}

pub record Alert : Type 0 where
  pub sequence : ℕ
  pub kind : ℕ
  pub timestamp : ℕ
  pub wire : Bytes
  pub hash : String

pub record Entry : Type 0 where
  pub alert : Alert
  pub note : String
  pub created_at : ℕ

abbrev pub Log : Type 0
Log = List (ℕ × Entry)

unfoldable pub get : ℕ → Log → Option Entry
get seq [] = none
get seq ((k, e) ∷ rest) = let below = get seq rest in if k == seq then some e else below

unfoldable pub put : ℕ → Entry → Log → Log
put seq e [] = (seq, e) ∷ []
put seq e ((k, old) ∷ rest) =
    let below = put seq e rest in if k == seq then (seq, e) ∷ rest else (k, old) ∷ below

-- `Latest`
unfoldable pub latest : Log → ℕ
latest [] = 0
latest ((k, e) ∷ rest) = let below = latest rest in if ltb below k then k else below

unfoldable pub insert_entry : Entry → List Entry → List Entry
insert_entry e [] = e ∷ []
insert_entry e (x ∷ es) =
    let below = insert_entry e es in
    if ltb x.alert.sequence e.alert.sequence then x ∷ below else e ∷ x ∷ es

-- `Entries`: the values of the map, sorted by their numbers.
unfoldable pub entries : Log → List Entry
entries [] = []
entries ((k, e) ∷ rest) = insert_entry e (entries rest)

-- An entry is recorded in memory also where the save fails.
pub data Appended : Type 0 where
  recorded : Entry → Log → Option String → Appended
  taken : String → Appended

taken_by : Alert → Option Entry → Option String
taken_by a none = none
taken_by a (some e) = if str_eq e.alert.hash a.hash then none else some e.alert.hash

unfoldable pub append : Alert → String → ℕ → Option String → Log → Appended
unfolding taken_by
append a note now save log = elim (taken_by a (get a.sequence log)) [
  | some hash ↦ taken hash
  | none ↦
      let e : Entry = record { alert = a; note = note; created_at = now } in
      recorded e (put a.sequence e log) save
]

-- What a call leaves of the log.
abbrev pub after : Appended → Log → Log
after (recorded e log save) old = log
after (taken hash) old = old

pub record Call : Type 0 where
  pub built : Alert
  pub remark : String
  pub now : ℕ
  pub save : Option String

pub appends : List Call → Log → Log
appends [] log = log
appends (c ∷ cs) log = appends cs (after (append c.built c.remark c.now c.save log) log)

get-put :
    (seq k : ℕ) (e : Entry) (log : Log)
    → get k (put seq e log) ≡ (if seq == k then some e else get k log)
unfolding get put
get-put seq k e [] = refl
get-put seq k e ((j, old) ∷ rest) = ground (arith, get-put seq k e rest)

latest-put : (seq : ℕ) (e : Entry) (log : Log) → latest (put seq e log) ≡ max seq (latest log)
unfolding latest put
latest-put seq e [] = ground arith
latest-put seq e ((k, old) ∷ rest) = ground (arith, latest-put seq e rest)

-- The hash that is recorded for a sequence number.
abbrev pub hash_at : ℕ → Log → Option String
hash_at seq log = elim (get seq log) [ none ↦ none | some e ↦ some e.alert.hash ]

append-keeps :
    (a : Alert) (note : String) (now : ℕ) (save : Option String) (log : Log) (seq : ℕ) (h : String)
    → hash_at seq log ≡ some h
    → hash_at seq (after (append a note now save log) log) ≡ some h
unfolding append taken_by
append-keeps a note now save log seq h was =
    let e : Entry = record { alert = a; note = note; created_at = now } in
    elim (Option-cases (get a.sequence log)) [
      | inl free ↦ ground (arith, get-put a.sequence seq e log, free, was)
      | inr (old, held) ↦ elim (Bool-cases (str_eq old.alert.hash a.hash)) [
        | inl same ↦ ground (
          arith,
          get-put a.sequence seq e log,
          held,
          was,
          same,
          (eq_iff old.alert.hash a.hash).0 same,
        )
        | inr other ↦ ground (arith, held, other, was)
      ]
    ]

latest-append :
    (a : Alert) (note : String) (now : ℕ) (save : Option String) (log : Log)
    → latest log ≤ latest (after (append a note now save log) log)
unfolding append taken_by
latest-append a note now save log =
    let e : Entry = record { alert = a; note = note; created_at = now } in
    ground (arith, latest-put a.sequence e log, Option-cases (get a.sequence log))

-- Once an alert is recorded under a sequence number, no later calls put another one there, whatever
-- they append and whether their saves succeed: its hash stays, and the highest number never falls.
pub appends-keep :
    (cs : List Call) (log : Log) (seq : ℕ) (h : String)
    → hash_at seq log ≡ some h
    → (hash_at seq (appends cs log) ≡ some h) × (latest log ≤ latest (appends cs log))
unfolding appends
appends-keep [] log seq h was = (was, omega arith)
appends-keep (c ∷ cs) log seq h was =
    let rest = appends-keep cs _ seq h (append-keeps c.built c.remark c.now c.save log seq h was) in
    (rest.0, omega (arith, rest.1, latest-append c.built c.remark c.now c.save log))
