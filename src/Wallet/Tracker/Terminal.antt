-- ===== src/Wallet/Tracker/Terminal.antt =====
-- When internal/walletsvc/tracker.go stops asking about a transaction.
use chaos_test.Common.{
  ℕ, ◌-◌, ◌<◌, ◌≡◌, ◌≢◌, ◌↔◌, refl, ap, ◌∙◌, inl, inr, String, true, false, arith, str_eq, eq_iff,
  Bool-cases,
}
use chaos_test.Arcade.{TxRecord, is_settled, status_rejected, status_not_found}
use chaos_test.Wallet.Tracker.{Tracked, rejected_grace, not_found_grace}
use chaos_test.Wallet.Tracker.Poll.{settle, absorb, observe}

pub data Reason (status : String) (now : ℕ) (e : Tracked) : Type 0 where
  settled : is_settled status ≡ true → Reason status now e
  rejected :
      status ≡ status_rejected
      → e.rejected_at ≢ 0
      → rejected_grace < now - e.rejected_at
      → Reason status now e
  lost : status ≡ status_not_found → not_found_grace < now - e.created → Reason status now e

reason_of :
    (rec : TxRecord) (now : ℕ) (e : Tracked)
    → e.row.terminal ≡ false
    → (observe rec now e).row.terminal ≡ true
    → Reason rec.status now e
unfolding observe settle absorb
reason_of rec now e live done = elim (Bool-cases (is_settled rec.status)) [
  | inl s ↦ settled s
  | inr s ↦ elim (Bool-cases (str_eq rec.status status_rejected)) [
    | inl r ↦ rejected ((eq_iff _ _).0 r) (ground arith) (ground arith)
    | inr r ↦ elim (Bool-cases (str_eq rec.status status_not_found)) [
      | inl n ↦ lost ((eq_iff _ _).0 n) (ground arith)
      | inr n ↦ absurd (ground arith)
    ]
  ]
]

settled_not : (is_settled status_rejected ≡ false) × (is_settled status_not_found ≡ false)
unfolding is_settled
settled_not = (refl, refl)

ends :
    (rec : TxRecord) (now : ℕ) (e : Tracked)
    → Reason rec.status now e
    → (observe rec now e).row.terminal ≡ true
unfolding observe settle absorb
ends rec now e (settled s) = ground arith
ends rec now e (rejected s at late) =
    ground (arith, eq_iff rec.status status_rejected, ap is_settled s, settled_not)
ends rec now e (lost s late) =
    let calm : is_settled rec.status ≡ false = ap is_settled s ∙ settled_not.1 in
    let kind : str_eq rec.status status_rejected ≡ false = ap (λ x. str_eq x status_rejected) s in
    rw (calm, kind) (ground (arith, eq_iff rec.status status_not_found))

-- A row that is still polled becomes terminal by an answer exactly if the status is settled, if it
-- is a rejection and the rejection clock has run for more than two minutes, or if it is a 404 more
-- than ten minutes after the row was made.
pub terminal_iff :
    (rec : TxRecord) (now : ℕ) (e : Tracked)
    → e.row.terminal ≡ false
    → ((observe rec now e).row.terminal ≡ true) ↔ Reason rec.status now e
terminal_iff rec now e live = (reason_of rec now e live, ends rec now e)

-- An answer never puts a terminal row back into the polling set.
pub terminal_stays :
    (rec : TxRecord) (now : ℕ) (e : Tracked)
    → e.row.terminal ≡ true
    → (observe rec now e).row.terminal ≡ true
unfolding observe settle absorb
terminal_stays rec now e done = ground arith

-- A status that the code does not know, whatever it is, is stored verbatim, leaves the row as
-- pollable as it was, and clears the rejection clock.
pub open_status :
    (rec : TxRecord) (now : ℕ) (e : Tracked)
    → is_settled rec.status ≡ false
    → rec.status ≢ status_rejected
    → rec.status ≢ status_not_found
    → ((observe rec now e).row.arcade_status ≡ rec.status)
      × ((observe rec now e).row.terminal ≡ e.row.terminal)
      × ((observe rec now e).rejected_at ≡ 0)
unfolding observe settle absorb
open_status rec now e unsettled r n =
    ground (arith, eq_iff rec.status status_rejected, eq_iff rec.status status_not_found)

rejected_starts :
    (rec : TxRecord) (now : ℕ) (e : Tracked)
    → e.row.terminal ≡ false
    → e.rejected_at ≡ 0
    → rec.status ≡ status_rejected
    → (observe rec now e).row.terminal ≡ false
unfolding observe settle absorb
rejected_starts rec now e live clock r =
    ground (arith, eq_iff rec.status status_rejected, ap is_settled r, settled_not)

-- A rejection that another status supersedes starts its two minutes anew: after a rejection, such
-- a status and a second rejection the row is still polled, however far the instants lie apart.
pub rejection_recovers :
    (first between second : TxRecord) (t u v : ℕ) (e : Tracked)
    → e.row.terminal ≡ false
    → e.rejected_at ≡ 0
    → first.status ≡ status_rejected
    → second.status ≡ status_rejected
    → is_settled between.status ≡ false
    → between.status ≢ status_rejected
    → between.status ≢ status_not_found
    → (observe second v (observe between u (observe first t e))).row.terminal ≡ false
rejection_recovers first between second t u v e live clock r r' unsettled n m =
    let one : Tracked = observe first t e in
    let two : Tracked = observe between u one in
    let live₁ : one.row.terminal ≡ false = (rejected_starts first t e live clock r) in
    let mid : (two.row.arcade_status ≡ between.status)
        × (two.row.terminal ≡ one.row.terminal)
        × (two.rejected_at ≡ 0) =
      open_status between u one unsettled n m in
    rejected_starts second v two (mid.1 ∙ live₁) mid.2 r'
