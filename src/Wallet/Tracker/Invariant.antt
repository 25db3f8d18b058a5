-- ===== src/Wallet/Tracker/Invariant.antt =====
-- The order and the map of internal/walletsvc/tracker.go hold the same transactions.
use chaos_test.Common.{
  ℕ, suc, ◌-◌, ◌≡◌, refl, sym, inl, inr, String, ℤ, Bool, none, some, List, [], ◌∷◌, ◌++◌, arith,
  ltb, str_eq, eq_iff, length, last_n, drop-nil, last_n_all, Bool-cases, Option-cases, ◌||◌,
}
use chaos_test.Common.Dict.{
  Dict, lookup, insert, delete, has, has-insert, has-delete, contains, Distinct,
  contains-append_one, Distinct-append_one,
}
use chaos_test.Arcade.{TxRecord}
use chaos_test.Wallet.Tracker.{Tracker, Tracked, evict, note, set_wallet_status, new_tracker}
use chaos_test.Wallet.Tracker.Poll.{apply, touch}

pub record IsWellFormed (t : Tracker) : Type 0 where
  pub distinct : Distinct t.order
  pub keys : (k : String) → has k t.rows ≡ contains t.order k

pub evict-order :
    (max : ℕ) (rows : Dict Tracked) (order : List String)
    → (evict max rows order).1 ≡ last_n max order
unfolding evict
evict-order max rows [] = sym (drop-nil (0 - max))
evict-order max rows (x ∷ order) = elim (Bool-cases (ltb max (suc (length order)))) [
  | inl over ↦
      let one : suc (length order) - max ≡ suc (length order - max) = ground arith in
      rw (over, one) (evict-order max (delete x rows) order)
  | inr under ↦ rw under (sym (last_n_all max (x ∷ order) (ground arith)))
]

evict-Distinct :
    (max : ℕ) (rows : Dict Tracked) (order : List String)
    → Distinct order
    → Distinct (evict max rows order).1
unfolding evict
evict-Distinct max rows [] d = tt
evict-Distinct max rows (x ∷ order) d = ground (arith, evict-Distinct max (delete x rows) order d.1)

evict-keys :
    (max : ℕ) (rows : Dict Tracked) (order : List String)
    → Distinct order
    → ((k : String) → has k rows ≡ contains order k)
    → (k : String) → has k (evict max rows order).0 ≡ contains (evict max rows order).1 k
unfolding evict contains
evict-keys max rows [] d h k = h k
evict-keys max rows (x ∷ order) d h k =
    let fewer : (j : String) → has j (delete x rows) ≡ contains order j =
      λ j. ground (arith, has-delete x j rows, h j, d.0, eq_iff x j) in
    ground (arith, h k, evict-keys max (delete x rows) order d.1 fewer k)

-- Writing a row that is there changes no key; writing a new one adds it.
insert-old :
    (txid : String) (e e' : Tracked) (t : Tracker)
    → IsWellFormed t
    → lookup txid t.rows ≡ some e
    → IsWellFormed (record t { rows = insert txid e' t.rows })
unfolding has
insert-old txid e e' t h found = record {
  distinct = h.distinct;
  keys = λ k. ground (arith, has-insert txid k e' t.rows, h.keys k, h.keys txid, eq_iff txid k);
}

insert-new :
    (txid : String) (e : Tracked) (t : Tracker)
    → IsWellFormed t
    → lookup txid t.rows ≡ none
    → IsWellFormed (record t { rows = insert txid e t.rows; order = t.order ++ txid ∷ [] })
unfolding has
insert-new txid e t h absent = record {
  distinct = Distinct-append_one t.order txid h.distinct (ground (arith, h.keys txid));
  keys =
      λ k. ground (arith, has-insert txid k e t.rows, h.keys k, contains-append_one t.order txid k);
}

evict-IsWellFormed :
    (t : Tracker)
    → IsWellFormed t
    → IsWellFormed
        (record t { rows = (evict t.max t.rows t.order).0; order = (evict t.max t.rows t.order).1 })
evict-IsWellFormed t h = record {
  distinct = evict-Distinct t.max t.rows t.order h.distinct;
  keys = evict-keys t.max t.rows t.order h.distinct h.keys;
}

-- Every operation that writes the tracker.
pub data Op : Type 0 where
  notes : String → String → String → ℕ → String → ℕ → Op
  statuses : String → String → ℕ → Op
  applies : String → TxRecord → ℕ → Op
  touches : String → ℕ → Op

pub step : Op → Tracker → Tracker
step (notes txid shape target sats status now) t = note txid shape target sats status now t
step (statuses txid status now) t = set_wallet_status txid status now t
step (applies txid rec now) t = (apply txid rec now t).0
step (touches txid now) t = touch txid now t

note-IsWellFormed :
    (txid shape target : String) (sats : ℕ) (status : String) (now : ℕ) (t : Tracker)
    → IsWellFormed t
    → IsWellFormed (note txid shape target sats status now t)
unfolding note
note-IsWellFormed txid shape target sats status now t h = elim (Bool-cases (str_eq txid "")) [
  | inl empty ↦ rw empty h
  | inr given ↦ rw given (elim (Option-cases (lookup txid t.rows)) [
    | inl absent ↦ rw absent (evict-IsWellFormed _ (insert-new txid _ t h absent))
    | inr (e, found) ↦ rw found (elim (Bool-cases (str_eq status "")) [
      | inl blank ↦ rw blank h
      | inr told ↦ rw told (insert-old txid e _ t h found)
    ])
  ])
]

set_wallet_status-IsWellFormed :
    (txid status : String) (now : ℕ) (t : Tracker)
    → IsWellFormed t
    → IsWellFormed (set_wallet_status txid status now t)
unfolding set_wallet_status
set_wallet_status-IsWellFormed txid status now t h =
    elim (Bool-cases (str_eq txid "" || str_eq status "")) [
      | inl empty ↦ rw empty h
      | inr given ↦ rw given (elim (Option-cases (lookup txid t.rows)) [
        | inl absent ↦ rw absent (insert-new txid _ t h absent)
        | inr (e, found) ↦ rw found (insert-old txid e _ t h found)
      ])
    ]

apply-IsWellFormed :
    (txid : String) (rec : TxRecord) (now : ℕ) (t : Tracker)
    → IsWellFormed t
    → IsWellFormed (apply txid rec now t).0
unfolding apply
apply-IsWellFormed txid rec now t h = elim (Option-cases (lookup txid t.rows)) [
  | inl absent ↦ rw (absent, apply) h
  | inr (e, found) ↦ rw (found, apply) (insert-old txid e _ t h found)
]

touch-IsWellFormed :
    (txid : String) (now : ℕ) (t : Tracker) → IsWellFormed t → IsWellFormed (touch txid now t)
unfolding touch
touch-IsWellFormed txid now t h = elim (Option-cases (lookup txid t.rows)) [
  | inl absent ↦ rw (absent, touch) h
  | inr (e, found) ↦ rw (found, touch) (insert-old txid e _ t h found)
]

-- Every operation keeps the order free of repetitions and its transactions those of the map.
pub step-IsWellFormed : (op : Op) (t : Tracker) → IsWellFormed t → IsWellFormed (step op t)
unfolding step
step-IsWellFormed (notes txid shape target sats status now) t h =
    note-IsWellFormed txid shape target sats status now t h
step-IsWellFormed (statuses txid status now) t h =
    set_wallet_status-IsWellFormed txid status now t h
step-IsWellFormed (applies txid rec now) t h = apply-IsWellFormed txid rec now t h
step-IsWellFormed (touches txid now) t h = touch-IsWellFormed txid now t h

pub run : List Op → Tracker → Tracker
run [] t = t
run (op ∷ ops) t = run ops (step op t)

run-IsWellFormed : (ops : List Op) (t : Tracker) → IsWellFormed t → IsWellFormed (run ops t)
unfolding run
run-IsWellFormed [] t h = h
run-IsWellFormed (op ∷ ops) t h = run-IsWellFormed ops (step op t) (step-IsWellFormed op t h)

new_tracker-IsWellFormed : (has_bus : Bool) (max : ℤ) → IsWellFormed (new_tracker has_bus max)
unfolding new_tracker has lookup contains
new_tracker-IsWellFormed has_bus max = record { distinct = tt; keys = λ k. refl }

-- After any calls on a new tracker, in any order, the order lists no transaction twice and lists
-- exactly those of the map.
pub run-new-IsWellFormed :
    (has_bus : Bool) (max : ℤ) (ops : List Op) → IsWellFormed (run ops (new_tracker has_bus max))
run-new-IsWellFormed has_bus max ops = run-IsWellFormed ops _ (new_tracker-IsWellFormed has_bus max)
