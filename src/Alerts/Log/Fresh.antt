-- ===== src/Alerts/Log/Fresh.antt =====
-- bsv-regtest/alerts/log.go: an alert under a number above all that are recorded.
use chaos_test.Common.{ℕ, ◌<◌, ◌≡◌, refl, ◌∙◌, ◌⊎◌, String, Option, none, some, [], ◌∷◌, arith}
use chaos_test.Alerts.Log.{
  Alert, Entry, Log, recorded, append, taken_by, get, put, latest, get-put, latest-put,
}

pub get-above-latest : (log : Log) (k : ℕ) → latest log < k → get k log ≡ none
unfolding get latest
get-above-latest [] k h = refl
get-above-latest ((j, e) ∷ rest) k h = ground (arith, get-above-latest rest k)

-- The alert is recorded under the number, which becomes the highest one, and all others stay.
abbrev pub IsRecorded : ℕ → Entry → Log → Log → Type 0
IsRecorded seq e old log =
    (e.alert.sequence ≡ seq)
    × (get seq log ≡ some e)
    × (latest log ≡ seq)
    × ((k : ℕ) → (k ≡ seq) ⊎ (get k log ≡ get k old))

pub append-fresh :
    (a : Alert) (note : String) (now : ℕ) (save : Option String) (log : Log)
    → get a.sequence log ≡ none
    → append a note now save log
      ≡ recorded
          (record { alert = a; note = note; created_at = now })
          (put a.sequence (record { alert = a; note = note; created_at = now }) log)
          save
unfolding append taken_by
append-fresh a note now save log h = rw (h, append)

pub put-IsRecorded :
    (a : Alert) (note : String) (now : ℕ) (log : Log)
    → latest log < a.sequence
    → let e : Entry = record { alert = a; note = note; created_at = now } in
      IsRecorded a.sequence e log (put a.sequence e log)
put-IsRecorded a note now log h =
    let e : Entry = record { alert = a; note = note; created_at = now } in
    (
      refl,
      ground (arith, get-put a.sequence a.sequence e log),
      latest-put a.sequence e log ∙ omega (arith, h),
      (λ k. ground (arith, get-put a.sequence k e log)),
    )
