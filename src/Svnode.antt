-- ===== src/Svnode.antt =====
-- internal/svnode/client.go: the consensus blacklist of an SV node. Transaction ids are lists of code
-- points.
mod Examples
use chaos_test.Common.{
  ℕ, ◌+◌, ◌≡◌, refl, inl, inr, Bool, true, false, not, ◌&&◌, ◌||◌, List, [], ◌∷◌, map, arith, ltb,
  leb, ◌==◌, if◌then◌else◌, Bool-cases,
}
use chaos_test.Logs.Text.{Text, text_eq}
use chaos_test.Alerts.{Fund}

pub record Window : Type 0 where
  pub start : ℕ
  pub stop : ℕ

-- An entry of `queryBlacklist`; a bound that is missing is 0.
pub record BlacklistFund : Type 0 where
  pub tx_id : Text
  pub vout : ℕ
  pub enforce_at_height : List Window

lower : ℕ → ℕ
lower c = if leb 65 c && leb c 90 then c + 32 else c

-- `strings.EqualFold`, on ASCII texts.
unfoldable pub equal_fold : Text → Text → Bool
unfolding lower
equal_fold s t = text_eq (map lower s) (map lower t)

unfoldable pub in_window : ℕ → Window → Bool
in_window h w = leb w.start h && (w.stop == 0 || ltb h w.stop)

unfoldable pub in_some : ℕ → List Window → Bool
in_some h [] = false
in_some h (w ∷ ws) = let later = in_some h ws in if in_window h w then true else later

covers : ℕ → List Window → Bool
covers h [] = true
covers h (w ∷ ws) = in_some h (w ∷ ws)

unfoldable pub frozen_at : List BlacklistFund → Text → ℕ → ℕ → Bool
unfolding covers
frozen_at [] txid vout h = false
frozen_at (f ∷ fs) txid vout h =
    let later = frozen_at fs txid vout h in
    if not (equal_fold f.tx_id txid) || not (f.vout == vout)
    then later
    else if covers h f.enforce_at_height
    then true
    else later

-- What `AddToConsensusBlacklist` sends for a fund.
unfoldable pub entry : Fund → BlacklistFund
entry f = record {
  tx_id = f.tx_id;
  vout = f.vout;
  enforce_at_height =
      if not (f.start == 0) || not (f.stop == 0)
      then record { start = f.start; stop = f.stop } ∷ []
      else [];
}

-- What a fund comes to on an SV node: it is frozen from its first height on, to before its last one, or
-- without an end where that is 0, also where the alert means an empty interval by it.
unfoldable pub freezes : Text → ℕ → ℕ → Fund → Bool
freezes txid vout h f =
    (equal_fold f.tx_id txid && f.vout == vout) && (leb f.start h && (f.stop == 0 || ltb h f.stop))

unfoldable pub some_freezes : Text → ℕ → ℕ → List Fund → Bool
some_freezes txid vout h [] = false
some_freezes txid vout h (f ∷ fs) = freezes txid vout h f || some_freezes txid vout h fs

-- On a node that reports the entries that it was sent, an output is frozen at a height exactly if
-- one of the funds freezes it there: the id is the fund's up to case, the output number is the
-- fund's, the height is not below the fund's first one, and it is below its last one, where that is
-- not 0. A fund without heights freezes at every height.
pub frozen_at-entry :
    (fs : List Fund) (txid : Text) (vout h : ℕ)
    → frozen_at (map entry fs) txid vout h ≡ some_freezes txid vout h fs
unfolding frozen_at entry some_freezes freezes in_some in_window
frozen_at-entry [] txid vout h = refl
frozen_at-entry (f ∷ fs) txid vout h = ground (arith, frozen_at-entry fs txid vout h)
