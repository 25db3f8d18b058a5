-- ===== src/Wallet/Tracker/Size.antt =====
-- How many rows internal/walletsvc/tracker.go keeps.
use chaos_test.Common.{
  ℕ, ◌≤◌, ◌<◌, ◌≡◌, ◌≢◌, ap, inl, inr, String, none, [], ◌∷◌, ◌++◌, arith, str_eq, eq_iff, length,
  length-append, last_n, length-last_n, Bool-cases,
}
use chaos_test.Common.Dict.{lookup}
use chaos_test.Wallet.Tracker.{Tracker, note, set_wallet_status}
use chaos_test.Wallet.Tracker.Invariant.{evict-order}

-- A new transaction goes to the end of the order, and the oldest ones leave until `max` are left.
-- So no more than `max` are listed after it, however many there were.
pub order-note :
    (txid shape target : String) (sats : ℕ) (status : String) (now : ℕ) (t : Tracker)
    → txid ≢ ""
    → lookup txid t.rows ≡ none
    → ((note txid shape target sats status now t).order ≡ last_n t.max (t.order ++ txid ∷ []))
      × (length (note txid shape target sats status now t).order ≤ t.max)
unfolding note
order-note txid shape target sats status now t given absent =
    let listed : (note txid shape target sats status now t).order
        ≡ last_n t.max (t.order ++ txid ∷ []) =
      elim (Bool-cases (str_eq txid "")) [
        | inl empty ↦ absurd (given ((eq_iff txid "").0 empty))
        | inr ok ↦ rw (ok, note) (rw (absent, note) (evict-order t.max _ (t.order ++ txid ∷ [])))
      ] in
    (listed, omega (arith, ap length listed, length-last_n t.max (t.order ++ txid ∷ [])))

-- A sweep of the wallet's statuses evicts nothing: a transaction that it sees first makes the
-- tracker one row longer, also where the tracker is full.
pub order-set_wallet_status :
    (txid status : String) (now : ℕ) (t : Tracker)
    → txid ≢ ""
    → status ≢ ""
    → lookup txid t.rows ≡ none
    → t.max ≤ length t.order
    → t.max < length (set_wallet_status txid status now t).order
unfolding set_wallet_status
order-set_wallet_status txid status now t given told absent full =
    ground (arith, eq_iff txid "", eq_iff status "", length-append t.order (txid ∷ []))
