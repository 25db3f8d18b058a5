-- ===== src/Api/Partition.antt =====
-- `Partition` of internal/api/server.go: cutting a node off a plane and joining it again, up to three
-- attempts with the container runtime, and the record of it that the fleet keeps.
use Prim.Native.String.{◌++◌ as concat}
use chaos_test.Common.{
  ℕ, zero, suc, ◌+◌, String, Bool, true, false, not, ◌&&◌, Option, none, some, List, [], ◌∷◌, ◌++◌,
  str_eq, if◌then◌else◌,
}
use chaos_test.Common.Text.{itoa}
use chaos_test.Logs.Text.{codes, has_text}
use chaos_test.Topology.{Node, Inventory, node, is_sv}
use chaos_test.Wallet.Tracker.{Notice}
use chaos_test.Observe.Bus.{text, flag}
use chaos_test.Observe.Snapshot.{Reply, failed, got}
use chaos_test.Observe.Fleet.{Fleet, set_partition}
use chaos_test.Api.Attach.{Look, verify_attachment}

-- The network to leave or join, and the container that does.
pub record Target : Type 0 where
  pub network : String
  pub container : String

unnamed_plane : String → Target → Reply Target
unnamed_plane plane t =
    if str_eq t.network ""
    then failed (
        concat "inventory carries no compose network name for the "
          (concat plane " plane; re-run make gen"))
    else got t

unfoldable pub target_of : Inventory → Node → String → Reply Target
unfolding unnamed_plane
target_of inv n plane =
    if str_eq plane "p2p"
    then unnamed_plane plane (record { network = inv.networks.chaos_name; container = n.container })
    else if str_eq plane "alert"
    then if is_sv n
      then elim n.sidecar [
        | none ↦ failed (concat n.name " has no alert sidecar to partition")
        | some sc ↦
            unnamed_plane plane
              (record { network = inv.networks.alert_name; container = sc.container })
      ]
      else unnamed_plane plane
          (record { network = inv.networks.alert_name; container = n.container })
    else failed (concat "plane must be p2p or alert, got " (concat "\"" (concat plane "\"")))

-- What the runtime does in one attempt: the error of the change, then what the looks at the
-- attachment find, from the instant `began` on.
pub record Attempt : Type 0 where
  pub change : Option String
  pub began : ℕ
  pub looks : ℕ → Look

abbrev pub show_flag : Bool → String
show_flag true = "true"
show_flag false = "false"

unfoldable pub trouble : String → String → Bool → String → ℕ → String → Notice
trouble name plane on how attempt err = record {
  kind = "error";
  node = name;
  message = concat "partition " (
      concat name (
        concat " " (
          concat plane (
            concat " on=" (
              concat (show_flag on)
                (concat how (concat " (attempt " (concat (itoa attempt) (concat "): " err)))))))));
  attrs = [];
}

-- The change failed, and not because the container was joined already.
unfoldable pub is_refused : Bool → String → Bool
is_refused on err = not (not on && has_text (codes err) (codes "already"))

-- An attempt's error, if any, with the event that tells of it.
abbrev pub Trouble : Type 0
Trouble = Option (String × Notice)

unfoldable pub checked_attachment :
    ℕ → String → String → Bool → Target → ℕ → Attempt → Option Trouble
checked_attachment fuel name plane on t i a =
    elim (verify_attachment fuel t.container t.network (not on) a.began a.looks) [
      | none ↦ none
      | some none ↦ some none
      | some (some err) ↦ some (some (err, trouble name plane on " not effective" i err))
    ]

-- A change that is refused ends the attempt.
unfoldable pub after_change :
    String → String → Bool → ℕ → Option String → Option Trouble → Option Trouble
after_change name plane on i none look = look
after_change name plane on i (some err) look =
    if is_refused on err then some (some (err, trouble name plane on " failed" i err)) else look

unfoldable pub one_attempt : ℕ → String → String → Bool → Target → ℕ → Attempt → Option Trouble
unfolding after_change
one_attempt fuel name plane on t i a =
    after_change name plane on i a.change (checked_attachment fuel name plane on t i a)

-- The loop, with `left` attempts to go; `err` is the error of the last one. None is that the fuel of
-- a verification ran out.
unfoldable pub attempts :
    ℕ
    → String
    → String
    → Bool
    → Target
    → (ℕ → Attempt)
    → ℕ
    → ℕ
    → Option String
    → Option (Option String × List Notice)
attempts fuel name plane on t tries zero i err = some (err, [])
attempts fuel name plane on t tries (suc left) i err =
    elim (one_attempt fuel name plane on t i (tries i)) [
      | none ↦ none
      | some none ↦ some (none, [])
      | some (some (err', said)) ↦
          elim (attempts fuel name plane on t tries left (i + 1) (some err')) [
            | none ↦ none
            | some (last, more) ↦ some (last, said ∷ more)
          ]
    ]

unfoldable pub chaos_notice : String → String → Bool → Notice
chaos_notice name plane on = record {
  kind = "chaos";
  node = name;
  message = concat name (
      concat (if on then " partitioned from" else " reconnected to")
        (concat " the " (concat plane " plane")));
  attrs = ("plane", text plane) ∷ ("on", flag on) ∷ [];
}

-- An error, if any, what was published, and the fleet.
pub record Partitioned : Type 0 where
  pub err : Option String
  pub said : List Notice
  pub fleet : Fleet

unfoldable pub finished :
    String → String → Bool → Fleet → Option (Option String × List Notice) → Option Partitioned
finished name plane on f none = none
finished name plane on f (some (some err, said)) =
    some (record { err = some err; said = said; fleet = f })
finished name plane on f (some (none, said)) = some (record {
  err = none;
  said = said ++ chaos_notice name plane on ∷ [];
  fleet = set_partition name plane on f;
})

refuse : String → Fleet → Option Partitioned
refuse err f = some (record { err = some err; said = []; fleet = f })

unfoldable pub partition : ℕ → String → String → Bool → (ℕ → Attempt) → Fleet → Option Partitioned
unfolding refuse
partition fuel ref plane on tries f = elim (node ref f.inv) [
  | none ↦ refuse (concat "no node \"" (concat ref "\" in inventory")) f
  | some n ↦ elim (target_of f.inv n plane) [
    | failed err ↦ refuse err f
    | got t ↦ finished n.name plane on f (attempts fuel n.name plane on t tries 3 1 none)
  ]
]
