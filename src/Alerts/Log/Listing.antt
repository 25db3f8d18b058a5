-- ===== src/Alerts/Log/Listing.antt =====
-- bsv-regtest/alerts/log.go: the listing of the entries.
use chaos_test.Common.{
  ℕ, ◌<◌, ◌≡◌, refl, inl, inr, String, Option, none, some, List, [], ◌∷◌, arith, ltb, ◌==◌,
  if◌then◌else◌, All, All-map, Bool-cases, Option-cases,
}
use chaos_test.Alerts.Log.{
  Alert, Entry, Log, get, put, insert_entry, entries, append, taken_by, after, Call, appends,
  get-put,
}

-- The first entry of a number in a listing.
pub found : ℕ → List Entry → Option Entry
found k [] = none
found k (e ∷ es) = let below = found k es in if e.alert.sequence == k then some e else below

-- The numbers grow.
abbrev pub IsAscending : List Entry → Type 0
IsAscending [] = Unit
IsAscending (e ∷ es) = All (λ (x : Entry). e.alert.sequence < x.alert.sequence) es × IsAscending es

-- Every entry is recorded under its own number, and no number twice.
abbrev IsLog : Log → Type 0
IsLog [] = Unit
IsLog ((k, e) ∷ rest) = ((e.alert.sequence ≡ k) × (get k rest ≡ none)) × IsLog rest

put-IsLog : (e : Entry) (log : Log) → IsLog log → IsLog (put e.alert.sequence e log)
unfolding put get
put-IsLog e [] h = ((refl, refl), tt)
put-IsLog e ((k, old) ∷ rest) h = elim (Bool-cases (k == e.alert.sequence)) [
  | inl same ↦ rw (same, put) ((refl, ground (arith, same, h.0.1)), h.1)
  | inr other ↦
      rw (other, put)
        (
          (h.0.0, ground (arith, get-put e.alert.sequence k e rest, h.0.1, other)),
          put-IsLog e rest h.1,
        )
]

append-IsLog :
    (a : Alert) (note : String) (now : ℕ) (save : Option String) (log : Log)
    → IsLog log
    → IsLog (after (append a note now save log) log)
unfolding append
append-IsLog a note now save log h = elim (Option-cases (taken_by a (get a.sequence log))) [
  | inl e ↦ rw (e, append) (put-IsLog (record { alert = a; note = note; created_at = now }) log h)
  | inr (hash, e) ↦ rw (e, append) h
]

appends-IsLog : (cs : List Call) (log : Log) → IsLog log → IsLog (appends cs log)
unfolding appends
appends-IsLog [] log h = h
appends-IsLog (c ∷ cs) log h = appends-IsLog cs _ (append-IsLog c.built c.remark c.now c.save log h)

found-insert_entry :
    (k : ℕ) (e : Entry) (es : List Entry)
    → found k (insert_entry e es) ≡ (if e.alert.sequence == k then some e else found k es)
unfolding found insert_entry
found-insert_entry k e [] = refl
found-insert_entry k e (x ∷ es) = ground (arith, found-insert_entry k e es)

found-entries : (k : ℕ) (log : Log) → IsLog log → found k (entries log) ≡ get k log
unfolding found entries get
found-entries k [] h = refl
found-entries k ((j, e) ∷ rest) h =
    ground (arith, found-insert_entry k e (entries rest), found-entries k rest h.1, h.0.0)

insert_entry-All :
    (P : Entry → Type 0) (e : Entry) (es : List Entry) → P e → All P es → All P (insert_entry e es)
unfolding insert_entry
insert_entry-All P e [] h hs = (h, tt)
insert_entry-All P e (x ∷ es) h hs = elim (Bool-cases (ltb x.alert.sequence e.alert.sequence)) [
  | inl b ↦ rw (b, insert_entry) (hs.0, insert_entry-All P e es h hs.1)
  | inr b ↦ rw (b, insert_entry) (h, hs)
]

insert_entry-IsAscending :
    (e : Entry) (es : List Entry)
    → found e.alert.sequence es ≡ none
    → IsAscending es
    → IsAscending (insert_entry e es)
unfolding insert_entry found
insert_entry-IsAscending e [] free h = (tt, tt)
insert_entry-IsAscending e (x ∷ es) free h =
    elim (Bool-cases (ltb x.alert.sequence e.alert.sequence)) [
      | inl b ↦
          rw (b, insert_entry)
            (
              insert_entry-All (λ (y : Entry). x.alert.sequence < y.alert.sequence) e es
                  (ground (arith, b)) h.0,
              insert_entry-IsAscending e es (ground (arith, free, b)) h.1,
            )
      | inr b ↦
          let first : e.alert.sequence < x.alert.sequence = ground (arith, free, b) in
          rw (b, insert_entry)
            ((first, All-map _ _ (λ y later. omega (arith, later, first)) es h.0), h)
    ]

entries-IsAscending : (log : Log) → IsLog log → IsAscending (entries log)
unfolding entries
entries-IsAscending [] h = tt
entries-IsAscending ((k, e) ∷ rest) h =
    insert_entry-IsAscending e (entries rest)
      (ground (arith, found-entries e.alert.sequence rest h.1, h.0)) (entries-IsAscending rest h.1)

-- After any calls that append to a new log, whether their saves succeed: `Entries` lists the alerts in
-- strictly ascending order of their numbers, and under each number exactly the entry that `Get` has.
pub entries-appends :
    (cs : List Call)
    → IsAscending (entries (appends cs []))
      × ((k : ℕ) → found k (entries (appends cs [])) ≡ get k (appends cs []))
entries-appends cs =
    let is_log = appends-IsLog cs [] tt in
    (entries-IsAscending (appends cs []) is_log, λ k. found-entries k (appends cs []) is_log)
