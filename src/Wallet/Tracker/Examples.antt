-- ===== src/Wallet/Tracker/Examples.antt =====
-- Runs of the tracker of internal/walletsvc/tracker.go at concrete inputs.
use Prim.Native.Nat.{min}
use mathlib.Core.List.{Perm}
use chaos_test.Common.{map, ◌≡◌, ◌↔◌, refl, true, String, pos, List, [], ◌∷◌, ◌++◌, length}
use chaos_test.Arcade.{TxRecord}
use chaos_test.Wallet.Tracker.{Tracker, Tracked, new_tracker, empty_row, fresh}
use chaos_test.Wallet.Tracker.Poll.{observe, due, Candidate, not_found_record}
use chaos_test.Wallet.Tracker.Invariant.{
  Op, notes, statuses, applies, touches, run, IsWellFormed, run-new-IsWellFormed,
}
use chaos_test.Wallet.Tracker.Terminal.{Reason, terminal_iff}
use chaos_test.Wallet.Tracker.Due.{Ascending, open_rows, as_candidate, due_oldest}

abbrev answer : String → TxRecord
answer status = record (not_found_record "aa") { status = status }

abbrev calls : List Op
calls =
    notes "aa" "opreturn" "arcade" 1000 "" 5
    ∷ statuses "bb" "unproven" 6
    ∷ applies "aa" (answer "SEEN_ON_NETWORK") 7
    ∷ touches "bb" 8
    ∷ notes "cc" "fanout" "arcade" 2000 "sending" 9
    ∷ []

run-new-IsWellFormed_example : IsWellFormed (run calls (new_tracker true (pos 2)))
run-new-IsWellFormed_example = run-new-IsWellFormed true (pos 2) calls

abbrev one_row : Tracker
one_row = record {
  rows = ("aa", fresh (empty_row "aa") 5) ∷ [];
  order = "aa" ∷ [];
  max = 1;
  has_bus = true;
}

abbrev polled : Tracked
polled = fresh (empty_row "aa") 5

terminal_iff_example :
    ((observe (answer "MINED") 9 polled).row.terminal ≡ true) ↔ Reason "MINED" 9 polled
terminal_iff_example = terminal_iff (answer "MINED") 9 polled refl

abbrev given_up : Tracked
given_up = record polled { row = record polled.row { wallet_status = "failed" } }

abbrev mined : Tracked
mined = record polled { row = record polled.row { arcade_status = "MINED" } }

due_oldest_example :
    (later : List Candidate) × Perm
      (due 1 one_row ++ later)
      (map as_candidate (open_rows one_row.rows))
    × Ascending (due 1 one_row ++ later)
    × (length (due 1 one_row) ≡ min 1 (length (open_rows one_row.rows)))
due_oldest_example = due_oldest 1 one_row
