-- ===== src/Wallet/Tracker/Divergence.antt =====
-- When internal/walletsvc/tracker.go marks a row as diverged, and when it says so on the bus.
use chaos_test.Common.{
  ℕ, ◌≡◌, String, Bool, true, not, ◌&&◌, Option, [], arith, if◌then◌else◌, Option-cases, length,
}
use chaos_test.Arcade.{TxRecord}
use chaos_test.Wallet.Tracker.{Tracked, divergence, is_some, with_wallet_status}
use chaos_test.Wallet.Tracker.Poll.{absorb, settle, observe, apply_row}

-- The reason that `apply` computes, if the sources disagree after the answer.
abbrev pub verdict : TxRecord → ℕ → Tracked → Option String
verdict rec now e = divergence (observe rec now e).row (observe rec now e).rejected_at now

diverged-observe :
    (rec : TxRecord) (now : ℕ) (e : Tracked) → (observe rec now e).row.diverged ≡ e.row.diverged
unfolding observe settle absorb
diverged-observe rec now e = ground arith

-- After an answer the mark says exactly whether the sources disagree now, and one event goes out
-- exactly if they do, the row was not marked before, and there is a bus.
pub apply_row-diverged :
    (has_bus : Bool) (txid : String) (rec : TxRecord) (now : ℕ) (e : Tracked)
    → ((apply_row has_bus txid rec now e).0.row.diverged ≡ is_some (verdict rec now e))
      × (length (apply_row has_bus txid rec now e).1
          ≡ (if is_some (verdict rec now e) && (not e.row.diverged && has_bus) then 1 else 0))
unfolding apply_row
apply_row-diverged has_bus txid rec now e =
    ground (arith, diverged-observe rec now e, Option-cases (verdict rec now e))

-- A wallet status that alone makes the sources disagree marks the row without an event, and the
-- mark then holds back the event of every later answer: none goes out while they go on disagreeing.
pub silent_divergence :
    (has_bus : Bool) (txid status : String) (t u : ℕ) (rec : TxRecord) (e : Tracked)
    → is_some (divergence (record e.row { wallet_status = status }) e.rejected_at t) ≡ true
    → (apply_row has_bus txid rec u (with_wallet_status status t e)).1 ≡ []
unfolding apply_row with_wallet_status
silent_divergence has_bus txid status t u rec e h =
    ground (arith, diverged-observe rec u (with_wallet_status status t e))
