-- ===== src/Observe/Fleet/Alerting.antt =====
-- internal/observe/fleet.go: what the snapshot says of the nodes' alert sequences, however the
-- loops of `Run` overlap.
use mathlib.Core.List.{append-nil, append_assoc}
use chaos_test.Common.{
  ◌≡◌, refl, sym, ap, ◌∙◌, inl, inr, List, [], ◌∷◌, ◌++◌, map, arith, All, All-append,
  All-append_left, All-append_right, Option-cases,
}
use chaos_test.Common.Dict.{Distinct, lookup}
use chaos_test.Topology.{Node, Inventory, Service}
use chaos_test.Observe.Snapshot.{NodeState}
use chaos_test.Observe.Fleet.{
  Fleet, new_fleet, first_state, add_node, add_nodes, add_arcade, bare, set_partition,
}
use chaos_test.Observe.Fleet.Nodes.{begin_poll, polled_state, store, probe_alert}
use chaos_test.Observe.Fleet.World.{
  World, Step, reads, writes, probes, cuts, Reach, here, next, names, told, IsTold, IsNamed,
  polled_state-name, store-names, store-IsTold, alert-names, alert-IsTold,
}

add_node-nodes : (n : Node) (f : Fleet) → (add_node n f).nodes ≡ f.nodes ++ first_state n ∷ []
unfolding add_node
add_node-nodes n f = ground arith

add_nodes-nodes :
    (ns : List Node) (f : Fleet) → (add_nodes ns f).nodes ≡ f.nodes ++ map first_state ns
unfolding add_nodes
add_nodes-nodes [] f = sym (append-nil f.nodes)
add_nodes-nodes (n ∷ ns) f =
    add_nodes-nodes ns (add_node n f)
    ∙ ap (λ l. l ++ map first_state ns) (add_node-nodes n f)
    ∙ append_assoc f.nodes (first_state n ∷ []) (map first_state ns)

add_arcade-nodes : (a : Service) (f : Fleet) → (add_arcade a f).nodes ≡ f.nodes
unfolding add_arcade
add_arcade-nodes a f = ground arith

pub new_fleet-nodes : (inv : Inventory) → (new_fleet inv).nodes ≡ map first_state inv.nodes
unfolding new_fleet
new_fleet-nodes inv = elim (Option-cases (lookup "arcade" inv.services)) [
  | inl none_there ↦ rw (new_fleet, none_there) (add_nodes-nodes inv.nodes (bare inv))
  | inr (a, there) ↦
      rw (new_fleet, there) (add_arcade-nodes a _ ∙ add_nodes-nodes inv.nodes (bare inv))
]

first_states :
    (ns : List Node)
    → (names (map first_state ns) ≡ map (λ (n : Node). n.name) ns)
      × All (IsTold []) (map first_state ns)
unfolding first_state told
first_states [] = (refl, tt)
first_states (n ∷ ns) =
    let rest = first_states ns in (ground (arith, rest.0), (ground arith, rest.1))

record Holds (inv : Inventory) (w : World) : Type 0 where
  named : names w.fleet.nodes ≡ map (λ (n : Node). n.name) inv.nodes
  told_so : All (IsTold w.answers) w.fleet.nodes
  held_so : All IsNamed w.held

step-Holds :
    (inv : Inventory) {w v : World}
    → Distinct (map (λ (n : Node). n.name) inv.nodes)
    → Step w v
    → Holds inv w
    → Holds inv v
unfolding begin_poll store probe_alert set_partition
step-Holds inv {w} d (reads now node e) h = rw e (record {
  named = h.named;
  told_so = h.told_so;
  held_so = All-append IsNamed w.held _ h.held_so (refl, tt);
})
step-Holds inv {w} d (writes before p after a now at e) h =
    let held : All IsNamed (before ++ p ∷ after) = rw (← at) h.held_so in
    let from = All-append_right IsNamed before (p ∷ after) held in
    let st : NodeState = polled_state p.node w.fleet a p.seen in
    let same : st.name ≡ p.node.name = polled_state-name p.node w.fleet a p.seen ∙ from.0 in
    rw e (record {
      named = store-names p.node.name st w.fleet.nodes same ∙ h.named;
      told_so = store-IsTold w.answers p.node.name st w.fleet.nodes same h.told_so;
      held_so =
          All-append IsNamed before after (All-append_left IsNamed before (p ∷ after) held) from.1;
    })
step-Holds inv {w} d (probes name r e) h = rw e (record {
  named = alert-names name r w.fleet.nodes ∙ h.named;
  told_so = alert-IsTold w.answers name r w.fleet.nodes (rw h.named d) h.told_so;
  held_so = h.held_so;
})
step-Holds inv d (cuts node plane on e) h =
    rw e (record { named = h.named; told_so = h.told_so; held_so = h.held_so })

reach-Holds :
    (inv : Inventory) {w : World}
    → Distinct (map (λ (n : Node). n.name) inv.nodes)
    → Reach inv w
    → Holds inv w
reach-Holds inv d here = rw (new_fleet-nodes inv) (record {
  named = (first_states inv.nodes).0;
  told_so = (first_states inv.nodes).1;
  held_so = tt;
})
reach-Holds inv d (next r s) = step-Holds inv d s (reach-Holds inv d r)

-- Where the inventory's names differ, in every state that polls of nodes, probes of alert sequences
-- and calls of SetPartition reach in any interleaving, also while a poll waits between its reading
-- and its writing: the snapshot has one state for each node of the inventory, in its order; and each
-- carries the sequence that the last probe of its name to be answered returned, -1 where none was,
-- and is reachable for alerts exactly if the last probe of its name was answered.
pub Reach-IsTold :
    (inv : Inventory) {w : World}
    → Distinct (map (λ (n : Node). n.name) inv.nodes)
    → Reach inv w
    → (names w.fleet.nodes ≡ map (λ (n : Node). n.name) inv.nodes)
      × All (IsTold w.answers) w.fleet.nodes
Reach-IsTold inv d r = let h = reach-Holds inv d r in (h.named, h.told_so)
