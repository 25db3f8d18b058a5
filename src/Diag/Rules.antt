-- ===== src/Diag/Rules.antt =====
-- internal/diag/rules.go: one node's evidence reduced to a verdict. The rules stand in their order.
use chaos_test.Common.{
  ℕ, ◌+◌, ◌-◌, ◌*◌, ◌^◌, ◌%◌, ℤ, pos, Bool, true, false, not, ◌&&◌, ◌||◌, String, Option, none,
  some, List, [], ◌∷◌, ◌++◌, ltb, leb, ◌==◌, str_eq, if◌then◌else◌, length, keep,
}
use chaos_test.Common.Int.{◌-ℤ◌, leb_ℤ, ltb_ℤ, eqb_ℤ, pos_part}
use chaos_test.Common.Dict.{lookup, contains}
use chaos_test.Diag.{
  SourceStatus, TipInfo, CatchupStatus, PreviousAttempt, Peer, InvalidBlock, Diagnostics,
  FleetNodeBrief, FleetContext, Class, Severity, Verdict, fine, info, warn, error_level, unclear,
  high, low, unreachable, container_down, partitioned, fsm_idle, catchup_stalled, catching_up,
  catchup_failed, no_peers, minority_tip, behind, unwell, in_sync, unknown, src_container, src_tip,
  src_fsm, src_catchup, src_peers, src_invalid, src_health,
}

-- `now` is the clock that `recent` reads, in nanoseconds since 1970.
pub record Input : Type 0 where
  pub node : String
  pub diag : Diagnostics
  pub fleet : FleetContext
  pub prev : Option Diagnostics
  pub now : ℕ

unfoldable pub source_ok : String → List SourceStatus → Bool
source_ok name [] = false
source_ok name (s ∷ ss) = let rest = source_ok name ss in if str_eq s.name name then s.ok else rest

abbrev pub answered : Input → String → Bool
answered i name = source_ok name i.diag.sources

abbrev pub failed_sources : List SourceStatus → List String
failed_sources [] = []
failed_sources (s ∷ ss) = let rest = failed_sources ss in if s.ok then rest else s.name ∷ rest

abbrev pub is_nil : List String → Bool
is_nil [] = true
is_nil (x ∷ xs) = false

-- A source that failed is listed once by the last rule.
unfoldable pub list_failed : List SourceStatus → List String → List String
list_failed [] missing = missing
list_failed (s ∷ ss) missing =
    list_failed ss
      (if not s.ok && not (contains missing s.name) then missing ++ s.name ∷ [] else missing)

abbrev pub is_unknown : Class → Bool
is_unknown unknown = true
is_unknown _ = false

wanting : Input → List String → List String
wanting i = keep (λ (w : String). not (answered i w))

unfoldable pub finish : Class → Severity → List String → Input → List String → Verdict
unfolding wanting
finish class severity evidence i want =
    let missing =
      if is_unknown class then list_failed i.diag.sources (wanting i want) else wanting i want in
    record {
      class = class;
      severity = severity;
      evidence = if is_nil evidence && not (is_nil want) then want else evidence;
      missing = missing;
      confidence = if is_nil missing then high else low;
    }

-- `f.Nodes[node]`, with Go's zero value where there is none.
unfoldable pub brief_of : Input → FleetNodeBrief
brief_of i = elim (lookup i.node i.fleet.nodes) [
  | some b ↦ b
  | none ↦ record { reachable = false; partitions = [] }
]

unfoldable pub blocks_behind : Input → ℕ
blocks_behind i = elim i.diag.tip [ none ↦ 0 | some t ↦ i.fleet.max_height - t.height ]

unfoldable pub not_answering : Input → Bool
not_answering i = not (answered i src_tip) && not (brief_of i).reachable

unfoldable pub stopped : Input → Bool
stopped i = not (str_eq i.diag.container_state "") && not (str_eq i.diag.container_state "running")

unfoldable pub fsm_is : String → Diagnostics → Bool
fsm_is state d = elim d.fsm [ none ↦ false | some f ↦ str_eq f.state state ]

unfoldable pub catching : Diagnostics → Bool
unfolding fsm_is
catching d =
    fsm_is "CATCHINGBLOCKS" d || elim d.catchup [ none ↦ false | some c ↦ c.is_catching_up ]

stalled : CatchupStatus → Option Diagnostics → Bool
stalled c none = false
stalled c (some prev) = elim prev.catchup [
  | none ↦ false
  | some before ↦ eqb_ℤ before.blocks_validated c.blocks_validated
]

unfoldable pub wedged : Input → Bool
unfolding stalled
wedged i = elim i.diag.catchup [
  | none ↦ false
  | some c ↦ catching i.diag && (ltb_ℤ (pos 120_000) c.duration_ms && stalled c i.prev)
]

-- `time.Since(time.Unix(secs, 0)) <= 10 * time.Minute`
recent : ℤ → ℕ → Bool
recent secs now =
    if leb_ℤ secs (pos 0)
    then false
    else leb_ℤ (pos now -ℤ pos (pos_part secs * 10 ^ 9)) (pos (600 * 10 ^ 9))

gave_up : ℕ → PreviousAttempt → Bool
gave_up now pa = not (str_eq pa.error_message "") && recent pa.attempt_time now

unfoldable pub failed_before : Input → Bool
unfolding gave_up recent
failed_before i = elim i.diag.catchup [
  | none ↦ false
  | some c ↦ elim c.previous_attempt [ none ↦ false | some pa ↦ gave_up i.now pa ]
]

unfoldable pub count_connected : List Peer → ℕ
count_connected [] = 0
count_connected (p ∷ ps) = (if p.is_connected then 1 else 0) + count_connected ps

unfoldable pub lonely : Input → Bool
lonely i = answered i src_peers && count_connected i.diag.peers == 0

-- The rejections above the node's tip, up to one above the fleet's height. Their order, which the
-- code sorts for the reader, is left out.
unfoldable pub relevant_rejections : Diagnostics → FleetContext → List InvalidBlock
relevant_rejections d f = elim d.tip [
  | none ↦ []
  | some t ↦
      keep
        (λ (b : InvalidBlock).
          ltb t.height b.block_at && leb b.block_at ((f.max_height + 1) % 2 ^ 32))
        d.invalid
]

-- At the fleet's height, or one below it, on another chain.
unfoldable pub off_majority : TipInfo → FleetContext → Bool
off_majority t f =
    not (str_eq f.majority_tip "")
    && (not (str_eq t.hash f.majority_tip) && leb f.max_height ((t.height + 1) % 2 ^ 32))

unfoldable pub forked : Input → Bool
forked i = elim i.diag.tip [
  | none ↦ false
  | some t ↦
      off_majority t i.fleet
      && (ltb 0 (length i.diag.invalid) && ltb 0 (length (relevant_rejections i.diag i.fleet)))
]

unfoldable pub lagging : Input → Bool
lagging i = ltb 1 (blocks_behind i)

unfoldable pub ailing : Input → Bool
ailing i = elim i.diag.health [ none ↦ false | some h ↦ not (is_nil h.unhealthy) ]

unfoldable pub agrees : Input → Bool
agrees i = elim i.diag.tip [
  | none ↦ false
  | some t ↦ str_eq i.fleet.majority_tip "" || str_eq t.hash i.fleet.majority_tip
]

unfoldable pub healthy : Input → Bool
healthy i =
    answered i src_tip
    && (answered i src_fsm
        && (agrees i && (fsm_is "RUNNING" i.diag && is_nil (failed_sources i.diag.sources))))

unfoldable pub evaluate : Input → Verdict
evaluate i =
    if not_answering i
    then finish unreachable error_level (src_tip ∷ []) i (src_tip ∷ [])
    else if stopped i
    then finish container_down error_level (src_container ∷ []) i (src_container ∷ [])
    else if not (is_nil (brief_of i).partitions)
    then finish partitioned warn [] i []
    else if fsm_is "IDLE" i.diag
    then finish fsm_idle error_level (src_fsm ∷ []) i (src_fsm ∷ [])
    else if wedged i
    then finish catchup_stalled error_level (src_catchup ∷ []) i (src_catchup ∷ [])
    else if catching i.diag
    then finish catching_up info (src_fsm ∷ src_catchup ∷ []) i (src_fsm ∷ [])
    else if failed_before i
    then finish catchup_failed error_level (src_catchup ∷ []) i (src_catchup ∷ [])
    else if lonely i
    then finish no_peers error_level (src_peers ∷ []) i (src_peers ∷ [])
    else if forked i
    then finish minority_tip error_level (src_tip ∷ src_invalid ∷ []) i (src_tip ∷ src_invalid ∷ [])
    else if lagging i
    then finish behind warn (src_tip ∷ []) i (src_tip ∷ [])
    else if ailing i
    then finish unwell warn (src_health ∷ []) i (src_health ∷ [])
    else if healthy i
    then finish in_sync fine (src_tip ∷ src_fsm ∷ []) i (src_tip ∷ src_fsm ∷ [])
    else finish unknown unclear [] i []
