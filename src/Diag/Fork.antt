-- ===== src/Diag/Fork.antt =====
-- Forks and sick dependencies in the verdicts of internal/diag/rules.go.
use chaos_test.Common.{
  ◌+◌, ◌^◌, ◌%◌, ◌≤◌, ◌≡◌, ◌≢◌, ap, true, false, ◌&&◌, none, some, [], arith, ltb, leb, keep_none,
  All, All-map,
}
use chaos_test.Diag.{
  TipInfo, InvalidBlock, Health, Diagnostics, FleetContext, minority_tip, unwell, src_peers,
}
use chaos_test.Diag.Rules.{
  Input, evaluate, finish, stopped, brief_of, not_answering, catching, fsm_is, wedged,
  failed_before, lonely, forked, lagging, blocks_behind, ailing, relevant_rejections, is_nil,
  answered,
}

forked_of : (i : Input) → (evaluate i).class ≡ minority_tip → forked i ≡ true
unfolding evaluate finish
forked_of i h = ground arith

no_relevant :
    (d : Diagnostics) (f : FleetContext) (t : TipInfo)
    → d.tip ≡ some t
    → All (λ (b : InvalidBlock). b.block_at ≤ t.height) d.invalid
    → relevant_rejections d f ≡ []
unfolding relevant_rejections
no_relevant d f t e h = rw e (
    keep_none _ d.invalid (
      All-map (λ (b : InvalidBlock). b.block_at ≤ t.height)
        (λ (b : InvalidBlock).
          (ltb t.height b.block_at && leb b.block_at ((f.max_height + 1) % 2 ^ 32)) ≡ false)
        (λ b l. ground arith) d.invalid h))

-- A node that has rejected blocks only at its tip's height or below is never said to stand on a
-- minority tip, also where it stands at the fleet's height on another chain and has rejected the
-- majority's block of that height.
pub minority_tip-above :
    (i : Input) (t : TipInfo)
    → i.diag.tip ≡ some t
    → All (λ (b : InvalidBlock). b.block_at ≤ t.height) i.diag.invalid
    → (evaluate i).class ≢ minority_tip
unfolding forked
minority_tip-above i t e h c = ground (arith, forked_of i c, no_relevant i.diag i.fleet t e h)

-- A node whose tip and state are not known is said to be in sync with a sick dependency where its
-- health answers, if the fleet has reached it, its container runs, no plane is cut off, and neither
-- its catchup nor its peers answered.
pub unwell_without_tip :
    (i : Input) (hd : Health)
    → (brief_of i).reachable ≡ true
    → (brief_of i).partitions ≡ []
    → i.diag.container_state ≡ "running"
    → i.diag.tip ≡ none
    → i.diag.fsm ≡ none
    → i.diag.catchup ≡ none
    → answered i src_peers ≡ false
    → i.diag.health ≡ some hd
    → is_nil hd.unhealthy ≡ false
    → (evaluate i).class ≡ unwell
unfolding evaluate finish
unwell_without_tip i hd reached joined up tip fsm catchup peers health sick =
    let a : not_answering i ≡ false = unfold not_answering in ground arith in
    let b : stopped i ≡ false = unfold stopped in rw up in
    let j : is_nil (brief_of i).partitions ≡ true = ap is_nil joined in
    let idle : fsm_is "IDLE" i.diag ≡ false = unfold fsm_is in rw fsm in
    let w : wedged i ≡ false = unfold wedged in rw catchup in
    let c : catching i.diag ≡ false = unfold catching in unfold fsm_is in rw (fsm, catchup) in
    let f : failed_before i ≡ false = unfold failed_before in rw catchup in
    let l : lonely i ≡ false = unfold lonely in rw peers in
    let k : forked i ≡ false = unfold forked in rw tip in
    let g : lagging i ≡ false = unfold lagging in unfold blocks_behind in rw tip in
    let n : ailing i ≡ true = unfold ailing in rw (health, sick) in ground arith
