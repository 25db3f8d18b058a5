-- ===== src/Scenario/Healing.antt =====
-- Which planes count as cut in internal/scenario, and that a run that ends asks to heal them.
use mathlib.Core.Bool.{false≢true}
use chaos_test.Common.{
  ◌≡◌, refl, sym, ap, ◌∙◌, inl, inr, Bool, true, false, not, ◌&&◌, ◌||◌, String, Option, List, [],
  ◌∷◌, ◌++◌, map, arith, str_eq, eq_iff, if◌then◌else◌, keep, Bool-cases,
}
use chaos_test.Common.Dict.{
  Dict, lookup, contains, contains-append_one, lookup-insert, lookup-delete,
}
use chaos_test.Scenario.{Run}
use chaos_test.Scenario.Partitions.{
  track, store, planes_of, pairs, open_pairs, Heal, none_open, cleanup,
}

abbrev pub is_open : String → String → Dict (List String) → Bool
is_open node plane m = contains (planes_of node m) plane

contains-keep :
    (gone q : String) (ps : List String)
    → contains (keep (λ (p : String). not (str_eq p gone)) ps) q
      ≡ (if str_eq gone q then false else contains ps q)
unfolding contains
contains-keep gone q [] = ground arith
contains-keep gone q (p ∷ ps) =
    ground (arith, contains-keep gone q ps, eq_iff p gone, eq_iff p q, eq_iff gone q)

planes_of-store :
    (node other : String) (planes : List String) (m : Dict (List String))
    → planes_of other (store node planes m)
      ≡ (if str_eq node other then planes else planes_of other m)
unfolding planes_of store
planes_of-store node other [] m = ground (arith, lookup-delete node other m)
planes_of-store node other (p ∷ ps) m = ground (arith, lookup-insert node other (p ∷ ps) m)

switched : String → Bool → List String → List String
switched plane on planes =
    let kept = keep (λ (p : String). not (str_eq p plane)) planes in
    if on then kept ++ plane ∷ [] else kept

contains-switched :
    (plane : String) (on : Bool) (ps : List String) (p : String)
    → contains (switched plane on ps) p ≡ (if str_eq plane p then on else contains ps p)
unfolding switched
contains-switched plane true ps p =
    let kept = keep (λ (q : String). not (str_eq q plane)) ps in
    ground (arith, contains-append_one kept plane p, contains-keep plane p ps)
contains-switched plane false ps p = ground (arith, contains-keep plane p ps)

is_open-track :
    (node plane : String) (on : Bool) (m : Dict (List String)) (n p : String)
    → is_open n p (track node plane on m)
      ≡ (if str_eq node n && str_eq plane p then on else is_open n p m)
unfolding track switched
is_open-track node plane on m n p =
    let stored : planes_of n (track node plane on m)
        ≡ (if str_eq node n then switched plane on (planes_of node m) else planes_of n m) =
      planes_of-store node n (switched plane on (planes_of node m)) m in
    elim (Bool-cases (str_eq node n)) [
      | inl same ↦
          let e : node ≡ n = (eq_iff node n).0 same in
          ap (λ ps. contains ps p) stored
          ∙ rw same (
              contains-switched plane on (planes_of node m) p
              ∙ ap (λ k. if str_eq plane p then on else contains (planes_of k m) p) e)
      | inr other ↦ ap (λ ps. contains ps p) stored ∙ rw other
    ]

-- A call of `Partition` that succeeded.
pub record Switch : Type 0 where
  pub node : String
  pub plane : String
  pub on : Bool

pub switches : List Switch → Dict (List String) → Dict (List String)
switches [] m = m
switches (s ∷ ss) m = switches ss (track s.node s.plane s.on m)

-- What the last call for a plane of a node has asked for.
pub last_asked : String → String → Bool → List Switch → Bool
last_asked node plane before [] = before
last_asked node plane before (s ∷ ss) =
    last_asked node plane (if str_eq s.node node && str_eq s.plane plane then s.on else before) ss

switches-asked :
    (node plane : String) (ss : List Switch) (m : Dict (List String))
    → is_open node plane (switches ss m) ≡ last_asked node plane (is_open node plane m) ss
unfolding switches last_asked
switches-asked node plane [] m = refl
switches-asked node plane (s ∷ ss) m =
    switches-asked node plane ss (track s.node s.plane s.on m)
    ∙ ap (λ b. last_asked node plane b ss) (is_open-track s.node s.plane s.on m node plane)

-- After any calls that succeeded, in any order, a plane of a node is recorded as open exactly if the
-- last call for it cut it.
pub switches-last :
    (node plane : String) (ss : List Switch)
    → is_open node plane (switches ss []) ≡ last_asked node plane false ss
unfolding planes_of lookup contains
switches-last node plane ss = switches-asked node plane ss []

abbrev pub has_pair : String → String → List (String × String) → Bool
has_pair n p [] = false
has_pair n p ((m, q) ∷ ps) = (str_eq m n && str_eq q p) || has_pair n p ps

-- Whether a cleanup has asked to heal a plane of a node.
abbrev pub asked : String → String → List Heal → Bool
asked n p [] = false
asked n p (h ∷ hs) = (str_eq h.node n && str_eq h.plane p) || asked n p hs

has_pair-append :
    (n p : String) (xs ys : List (String × String))
    → has_pair n p (xs ++ ys) ≡ (has_pair n p xs || has_pair n p ys)
has_pair-append n p [] ys = refl
has_pair-append n p ((m, q) ∷ xs) ys = ground (arith, has_pair-append n p xs ys)

has_pair-pairs :
    (n p m : String) (planes : List String)
    → has_pair n p (pairs m planes) ≡ (str_eq m n && contains planes p)
unfolding contains
has_pair-pairs n p m [] = ground arith
has_pair-pairs n p m (q ∷ planes) = ground (arith, has_pair-pairs n p m planes)

open_pairs-open :
    (n p : String) (m : Dict (List String))
    → is_open n p m ≡ true
    → has_pair n p (open_pairs m) ≡ true
unfolding open_pairs planes_of lookup contains
open_pairs-open n p [] h = h
open_pairs-open n p ((k, planes) ∷ m) h = ground (
  arith,
  has_pair-append n p (pairs k planes) (open_pairs m),
  has_pair-pairs n p k planes,
  open_pairs-open n p m,
)

asked-map :
    (heal : String → String → Option String) (n p : String) (ps : List (String × String))
    → asked n p (
        map
          (λ (np : String × String). record { node = np.0; plane = np.1; error = heal np.0 np.1 })
          ps)
      ≡ has_pair n p ps
asked-map heal n p [] = refl
asked-map heal n p ((m, q) ∷ ps) = ground (arith, asked-map heal n p ps)

nothing_open : (n p : String) (m : Dict (List String)) → none_open m ≡ true → is_open n p m ≡ false
unfolding planes_of lookup contains
nothing_open n p [] h = refl
nothing_open n p (entry ∷ m) h = absurd (false≢true h)

-- A run that ends, unless it is asked to keep its partitions, asks to heal every plane that it has
-- recorded as open, and records none as open afterwards, whatever the heals answered.
pub cleanup_asks :
    (heal : String → String → Option String) (r : Run) (n p : String)
    → r.keep_open ≡ false
    → is_open n p r.open_partitions ≡ true
    → (asked n p (cleanup heal r).1 ≡ true) × ((cleanup heal r).0.open_partitions ≡ [])
unfolding cleanup
cleanup_asks heal r n p ends cut =
    let e = open_pairs-open n p r.open_partitions cut in
    let a = asked-map heal n p (open_pairs r.open_partitions) in
    elim (Bool-cases (none_open r.open_partitions)) [
      | inl empty ↦ absurd (false≢true (sym (nothing_open n p r.open_partitions empty) ∙ cut))
      | inr some_open ↦ rw (ends, some_open) (a ∙ e, refl)
    ]
