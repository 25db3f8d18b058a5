-- ===== src/Diag/Sync.antt =====
-- What the verdict "in sync" of internal/diag/rules.go rests on, and which probes it needs.
use chaos_test.Common.{
  ◌+◌, ◌≤◌, ◌≡◌, ◌⊎◌, refl, sym, ap, ◌∙◌, inl, inr, Bool, true, false, String, some, List, [], ◌∷◌,
  arith, str_eq, eq_iff, Bool-cases, Option-cases, All,
}
use chaos_test.Diag.{
  SourceStatus, TipInfo, FsmInfo, CatchupStatus, Health, Diagnostics, in_sync, src_tip,
  src_container,
}
use chaos_test.Diag.Probe.{
  Answer, Answers, got, failed, assemble, any_failed, status_of, assemble_non_teranode,
}
use chaos_test.Diag.Rules.{
  Input, evaluate, finish, stopped, brief_of, catching, fsm_is, lagging, ailing, healthy, agrees,
  blocks_behind, failed_sources, is_nil,
}

record RuleResults (i : Input) : Type 0 where
  up : stopped i ≡ false
  joined : is_nil (brief_of i).partitions ≡ true
  calm : catching i.diag ≡ false
  level : lagging i ≡ false
  well : ailing i ≡ false
  sound : healthy i ≡ true

tests_of : (i : Input) → (evaluate i).class ≡ in_sync → RuleResults i
unfolding evaluate finish
tests_of i h = record {
  up = ground arith;
  joined = ground arith;
  calm = ground arith;
  level = ground arith;
  well = ground arith;
  sound = ground arith;
}

-- What is known of a node that is said to be in sync. `tip` is its tip, `fsm` its state machine.
pub record InSync (i : Input) : Type 0 where
  pub sources : All (λ (s : SourceStatus). s.ok ≡ true) i.diag.sources
  pub tip : TipInfo
  pub tip_known : i.diag.tip ≡ some tip
  pub level : i.fleet.max_height ≤ tip.height + 1
  pub majority : (i.fleet.majority_tip ≡ "") ⊎ (tip.hash ≡ i.fleet.majority_tip)
  pub fsm : FsmInfo
  pub fsm_known : i.diag.fsm ≡ some fsm
  pub runs : fsm.state ≡ "RUNNING"
  pub container : (i.diag.container_state ≡ "") ⊎ (i.diag.container_state ≡ "running")
  pub joined : (brief_of i).partitions ≡ []
  pub calm : (c : CatchupStatus) → i.diag.catchup ≡ some c → c.is_catching_up ≡ false
  pub well : (h : Health) → i.diag.health ≡ some h → h.unhealthy ≡ []

none_failed :
    (ss : List SourceStatus)
    → is_nil (failed_sources ss) ≡ true
    → All (λ (s : SourceStatus). s.ok ≡ true) ss
none_failed [] h = tt
none_failed (s ∷ ss) h = elim (Bool-cases s.ok) [
  | inl ok ↦ (ok, none_failed ss (ground arith))
  | inr bad ↦ absurd (ground arith)
]

nil_of : (xs : List String) → is_nil xs ≡ true → xs ≡ []
nil_of [] h = refl
nil_of (x ∷ xs) h = absurd (ground arith)

tip_of :
    (i : Input)
    → agrees i ≡ true
    → lagging i ≡ false
    → (t : TipInfo) × (i.diag.tip ≡ some t)
      × (i.fleet.max_height ≤ t.height + 1)
      × ((i.fleet.majority_tip ≡ "") ⊎ (t.hash ≡ i.fleet.majority_tip))
unfolding agrees lagging blocks_behind
tip_of i h l = elim (Option-cases i.diag.tip) [
  | inl e ↦ absurd (ground arith)
  | inr (t, e) ↦ (
    t,
    e,
    ground arith,
    elim (Bool-cases (str_eq i.fleet.majority_tip "")) [
      | inl unset ↦ inl ((eq_iff _ _).0 unset)
      | inr set ↦ inr ((eq_iff _ _).0 (ground arith))
    ],
  )
]

fsm_of :
    (state : String) (d : Diagnostics)
    → fsm_is state d ≡ true
    → (f : FsmInfo) × (d.fsm ≡ some f) × (f.state ≡ state)
unfolding fsm_is
fsm_of state d h = elim (Option-cases d.fsm) [
  | inl e ↦ absurd (ground arith)
  | inr (f, e) ↦ (f, e, (eq_iff _ _).0 (ground arith))
]

container_of :
    (i : Input)
    → stopped i ≡ false
    → (i.diag.container_state ≡ "") ⊎ (i.diag.container_state ≡ "running")
unfolding stopped
container_of i h = elim (Bool-cases (str_eq i.diag.container_state "")) [
  | inl none_known ↦ inl ((eq_iff _ _).0 none_known)
  | inr known ↦ inr ((eq_iff _ _).0 (ground arith))
]

calm_of :
    (d : Diagnostics)
    → catching d ≡ false
    → (c : CatchupStatus) → d.catchup ≡ some c
    → c.is_catching_up ≡ false
unfolding catching
calm_of d h c e = ground arith

well_of :
    (i : Input)
    → ailing i ≡ false
    → (h : Health) → i.diag.health ≡ some h
    → is_nil h.unhealthy ≡ true
unfolding ailing
well_of i n h e = ground arith

record Soundness (i : Input) : Type 0 where
  agreed : agrees i ≡ true
  running : fsm_is "RUNNING" i.diag ≡ true
  all : is_nil (failed_sources i.diag.sources) ≡ true

sound_of : (i : Input) → healthy i ≡ true → Soundness i
unfolding healthy
sound_of i h = record { agreed = ground arith; running = ground arith; all = ground arith }

-- A node is said to be in sync only if every source that was asked answered, its state machine is
-- RUNNING, its tip is the majority's, where there is one, and at most one block behind the fleet,
-- its container is not known to be down, no plane is cut off, no catchup is under way, and no
-- dependency is reported unhealthy.
pub in_sync-InSync : (i : Input) → (evaluate i).class ≡ in_sync → InSync i
in_sync-InSync i h =
    let t : RuleResults i = tests_of i h in
    let s : Soundness i = sound_of i t.sound in
    let (tip, known, level, majority) = tip_of i s.agreed t.level in
    let (fsm, fsm_known, runs) = fsm_of "RUNNING" i.diag s.running in
    record {
      sources = none_failed i.diag.sources s.all;
      tip = tip;
      tip_known = known;
      level = level;
      majority = majority;
      fsm = fsm;
      fsm_known = fsm_known;
      runs = runs;
      container = container_of i t.up;
      joined = nil_of (brief_of i).partitions t.joined;
      calm = calm_of i.diag t.calm;
      well = λ hd e. nil_of hd.unhealthy (well_of i t.well hd e);
    }

abbrev pub is_got : {A : Type 0} → Answer A → Bool
is_got (got a) = true
is_got (failed err reason code) = false

status-ok : {A : Type 0} (name : String) (a : Answer A) → (status_of name a).ok ≡ is_got a
unfolding status_of
status-ok name (got a) = refl
status-ok name (failed err reason code) = refl

-- Every probe of a node returned a value.
pub record AllGot (a : Answers) : Type 0 where
  pub container : is_got a.container ≡ true
  pub tip : is_got a.tip ≡ true
  pub fsm : is_got a.fsm ≡ true
  pub catchup : is_got a.catchup ≡ true
  pub peers : is_got a.peers ≡ true
  pub heights : is_got a.heights ≡ true
  pub invalid : is_got a.invalid ≡ true
  pub health : is_got a.health ≡ true

all_got : (a : Answers) → All (λ (s : SourceStatus). s.ok ≡ true) (assemble a).sources → AllGot a
unfolding assemble
all_got a h = record {
  container = sym (status-ok _ a.container) ∙ h.0;
  tip = sym (status-ok _ a.tip) ∙ h.1.0;
  fsm = sym (status-ok _ a.fsm) ∙ h.1.1.0;
  catchup = sym (status-ok _ a.catchup) ∙ h.1.1.1.0;
  peers = sym (status-ok _ a.peers) ∙ h.1.1.1.1.0;
  heights = sym (status-ok _ a.heights) ∙ h.1.1.1.1.1.0;
  invalid = sym (status-ok _ a.invalid) ∙ h.1.1.1.1.1.1.0;
  health = sym (status-ok _ a.health) ∙ h.1.1.1.1.1.1.1.0;
}

-- Missing evidence is never read as good news: if the verdict on what the probes returned is "in
-- sync", then each of the eight probes returned a value.
pub in_sync-AllGot :
    (a : Answers) (i : Input) → i.diag ≡ assemble a → (evaluate i).class ≡ in_sync → AllGot a
in_sync-AllGot a i e h =
    all_got a (rw (sym (ap (λ (d : Diagnostics). d.sources) e)) (in_sync-InSync i h).sources)

none_degraded :
    (ss : List SourceStatus) → any_failed ss ≡ false → All (λ (s : SourceStatus). s.ok ≡ true) ss
none_degraded [] h = tt
none_degraded (s ∷ ss) h = (ground arith, none_degraded ss (ground arith))

assemble-degraded : (a : Answers) → (assemble a).degraded ≡ any_failed (assemble a).sources
unfolding assemble
assemble-degraded a = refl

-- A teranode's report is not degraded only if each of the eight probes returned a value.
pub degraded-AllGot : (a : Answers) → (assemble a).degraded ≡ false → AllGot a
degraded-AllGot a h = all_got a (none_degraded (assemble a).sources (sym (assemble-degraded a) ∙ h))

-- Where the state of an SV node's container could not be read and its tip could, a source has
-- failed and the report is not degraded.
pub non_teranode-degraded :
    (container : Answer String) (tip : Answer TipInfo)
    → is_got container ≡ false
    → is_got tip ≡ true
    → ((assemble_non_teranode container tip).degraded ≡ false)
      × (any_failed (assemble_non_teranode container tip).sources ≡ true)
unfolding assemble_non_teranode
non_teranode-degraded container tip bad good =
    ground (arith, status-ok src_container container, status-ok src_tip tip)
