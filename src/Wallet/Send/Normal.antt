-- ===== src/Wallet/Send/Normal.antt =====
-- `normalise` of internal/walletsvc/send.go: what sizes the pool is in range.
use mathlib.Core.Bool.{false≢true}
use chaos_test.Common.{
  sym, ◌∙◌, ◌≡◌, ◌≢◌, refl, inl, inr, String, ℤ, pos, false, arith, str_eq, eq_iff, if◌then◌else◌,
  Bool-cases,
}
use chaos_test.Common.Int.{◌≤ℤ◌, leb_ℤ}
use chaos_test.Wallet.Send.{Floats, SendRequest, normalise, clamp_i, clamp_f, target_arcade}

clamp_i_bounds :
    (v : ℤ) → (pos 1 ≤ℤ clamp_i v (pos 1) (pos 8)) × (clamp_i v (pos 1) (pos 8) ≤ℤ pos 8)
unfolding clamp_i
clamp_i_bounds v = ground arith

clamp_f_bounds :
    (fl : Floats) (v : fl.F)
    → fl.lt fl.min_tps fl.min_tps ≡ false
    → fl.lt fl.max_tps fl.max_tps ≡ false
    → fl.lt fl.max_tps fl.min_tps ≡ false
    → (fl.lt (clamp_f fl v fl.min_tps fl.max_tps) fl.min_tps ≡ false)
      × (fl.lt fl.max_tps (clamp_f fl v fl.min_tps fl.max_tps) ≡ false)
unfolding clamp_f
clamp_f_bounds fl v lo hi ordered = elim (Bool-cases (fl.lt v fl.min_tps)) [
  | inl under ↦ rw under (lo, ordered)
  | inr fine ↦ elim (Bool-cases (fl.lt fl.max_tps v)) [
    | inl over ↦ rw (fine, over) (ordered, hi)
    | inr within ↦ rw (fine, within) (fine, within)
  ]
]

shape_given : (shape : String) → (if str_eq shape "" then "opreturn" else shape) ≢ ""
shape_given shape = elim (Bool-cases (str_eq shape "")) [
  | inl empty ↦ rw empty (λ h. false≢true ((eq_iff "opreturn" "").1 h))
  | inr given ↦ rw given (λ h. false≢true (sym given ∙ (eq_iff shape "").1 h))
]

-- A normalised request has 1 to 8 workers, a rate that lies neither below the least nor above the
-- greatest one, a shape and the target arcade, whatever was asked for; the order of the floats is
-- irreflexive at the bounds and puts the greatest rate not below the least.
pub normalise_bounds :
    (fl : Floats) (r : SendRequest fl.F)
    → fl.lt fl.min_tps fl.min_tps ≡ false
    → fl.lt fl.max_tps fl.max_tps ≡ false
    → fl.lt fl.max_tps fl.min_tps ≡ false
    → (pos 1 ≤ℤ (normalise fl r).workers)
      × ((normalise fl r).workers ≤ℤ pos 8)
      × (fl.lt (normalise fl r).tps fl.min_tps ≡ false)
      × (fl.lt fl.max_tps (normalise fl r).tps ≡ false)
      × ((normalise fl r).shape ≢ "")
      × ((normalise fl r).target ≡ target_arcade)
unfolding normalise
normalise_bounds fl r lo hi ordered =
    let w : (pos 1 ≤ℤ (normalise fl r).workers) × ((normalise fl r).workers ≤ℤ pos 8) =
      clamp_i_bounds (if leb_ℤ r.workers (pos 0) then pos 2 else r.workers) in
    let t : (fl.lt (normalise fl r).tps fl.min_tps ≡ false)
        × (fl.lt fl.max_tps (normalise fl r).tps ≡ false) =
      clamp_f_bounds fl (if fl.le_zero r.tps then fl.one else r.tps) lo hi ordered in
    (w.0, w.1, t.0, t.1, shape_given r.shape, refl)
