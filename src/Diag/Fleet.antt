-- ===== src/Diag/Fleet.antt =====
-- `buildFleetContext` of internal/diag/probe.go: the fleet's height and its majority tip, from the
-- nodes of a snapshot.
use Prim.Native.String.{compare}
use Prim.Native.Nat.{Ordering}
use chaos_test.Common.{
  ℕ, ◌+◌, ◌≤◌, ◌≡◌, refl, ◌⊎◌, inl, inr, Bool, true, false, not, ◌&&◌, ◌||◌, String, List, [], ◌∷◌,
  arith, ltb, ◌==◌, str_eq, if◌then◌else◌, Bool-cases, All, All-map,
}
use chaos_test.Common.Dict.{Dict, insert}
use chaos_test.Diag.{FleetNodeBrief, FleetContext}

pub record NodeView : Type 0 where
  pub name : String
  pub height : ℕ
  pub tip : String
  pub reachable : Bool
  pub partitions : List String

abbrev pub less : String → String → Bool
less a b = elim (compare a b) [ Ordering.lt ↦ true | _ ↦ false ]

brief : NodeView → FleetNodeBrief
brief n = record { reachable = n.reachable; partitions = n.partitions }

briefs : List NodeView → Dict FleetNodeBrief → Dict FleetNodeBrief
briefs [] m = m
briefs (n ∷ ns) m = briefs ns (insert n.name (brief n) m)

unfoldable pub top : ℕ → List NodeView → ℕ
top h [] = h
top h (n ∷ ns) = top (if n.reachable && ltb h n.height then n.height else h) ns

-- `tips[t]`
unfoldable pub holders : String → List NodeView → ℕ
holders t [] = 0
holders t (n ∷ ns) =
    (if n.reachable && (not (str_eq n.tip "") && str_eq n.tip t) then 1 else 0) + holders t ns

-- A node that the second loop does not pass over.
unfoldable pub counts : ℕ → NodeView → Bool
counts highest n = n.reachable && (not (str_eq n.tip "") && n.height == highest)

-- The majority tip and its count, once a node is looked at.
unfoldable pub pick : ℕ → List NodeView → String × ℕ → NodeView → String × ℕ
pick highest all best n =
    let c = holders n.tip all in
    if counts highest n && (ltb best.1 c || (c == best.1 && less n.tip best.0))
    then (n.tip, c)
    else best

unfoldable pub majority : ℕ → List NodeView → String × ℕ → List NodeView → String × ℕ
majority highest all best [] = best
majority highest all best (n ∷ ns) = majority highest all (pick highest all best n) ns

unfoldable pub build_fleet_context : List NodeView → FleetContext
unfolding briefs brief
build_fleet_context ns = record {
  max_height = top 0 ns;
  majority_tip = (majority (top 0 ns) ns ("", 0) ns).0;
  nodes = briefs ns [];
}

top-bounds :
    (h : ℕ) (ns : List NodeView)
    → (h ≤ top h ns) × All (λ (n : NodeView). n.reachable ≡ true → n.height ≤ top h ns) ns
unfolding top
top-bounds h [] = (omega arith, tt)
top-bounds h (n ∷ ns) =
    let h' : ℕ = if n.reachable && ltb h n.height then n.height else h in
    let rest = top-bounds h' ns in
    (ground (arith, rest.0), (λ on. ground (arith, rest.0, on), rest.1))

-- A tip with the number of its holders, or none yet.
abbrev pub IsHeld : List NodeView → String × ℕ → Type 0
IsHeld all best = (best ≡ ("", 0)) ⊎ (best.1 ≡ holders best.0 all)

held_count :
    (all : List NodeView) (best : String × ℕ) → IsHeld all best → best.1 ≤ holders best.0 all
held_count all best (inl e) = ground arith
held_count all best (inr e) = omega (arith, e)

pick-most :
    (highest : ℕ) (all : List NodeView) (best : String × ℕ) (n : NodeView)
    → IsHeld all best
    → IsHeld all (pick highest all best n)
      × (best.1 ≤ (pick highest all best n).1)
      × (counts highest n ≡ true → holders n.tip all ≤ (pick highest all best n).1)
unfolding pick
pick-most highest all best n held =
    let c = holders n.tip all in
    elim (Bool-cases (counts highest n && (ltb best.1 c || (c == best.1 && less n.tip best.0)))) [
      | inl better ↦ rw better (inr refl, ground (arith, better), λ on. omega arith)
      | inr other ↦ rw other (held, omega arith, λ on. ground (arith, on, other))
    ]

majority-most :
    (highest : ℕ) (all : List NodeView) (best : String × ℕ) (ns : List NodeView)
    → IsHeld all best
    → let most = majority highest all best ns in
      IsHeld all most
      × (best.1 ≤ most.1)
      × All (λ (n : NodeView). counts highest n ≡ true → holders n.tip all ≤ most.1) ns
unfolding majority
majority-most highest all best [] held = (held, omega arith, tt)
majority-most highest all best (n ∷ ns) held =
    let one = pick-most highest all best n held in
    let rest = majority-most highest all (pick highest all best n) ns one.0 in
    (rest.0, omega (arith, one.1, rest.1), ((λ on. omega (arith, one.2 on, rest.1)), rest.2))

-- The fleet's height is at least that of every node that is reached, and no tip that such a node
-- holds at that height is held by more nodes that are reached than the majority tip is.
pub build_fleet_context-most :
    (ns : List NodeView)
    → let f = build_fleet_context ns in
      All (λ (n : NodeView). n.reachable ≡ true → n.height ≤ f.max_height) ns
      × All
          (λ (n : NodeView).
            counts f.max_height n ≡ true → holders n.tip ns ≤ holders f.majority_tip ns)
          ns
unfolding build_fleet_context
build_fleet_context-most ns =
    let most = majority-most (top 0 ns) ns ("", 0) ns (inl refl) in
    (
      (top-bounds 0 ns).1,
      All-map _ _ (λ n h on. omega (arith, h on, held_count ns _ most.0)) ns most.2,
    )
