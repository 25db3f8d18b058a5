-- ===== src/Observe/Fleet/ArcadePolls.antt =====
-- internal/observe/fleet.go: the polls of arcade, `pollArcade`.
use chaos_test.Common.{
  ℕ, ◌≡◌, refl, ◌∙◌, String, Bool, true, false, ◌||◌, Option, none, some, List, [], ◌∷◌, ◌++◌, map,
  arith, str_eq, if◌then◌else◌,
}
use chaos_test.Topology.{Node}
use chaos_test.Wallet.Tracker.{Notice}
use chaos_test.Observe.Snapshot.{Reply, failed, got, ArcadeDatahub, ArcadeState}
use chaos_test.Observe.Fleet.{Fleet}
use chaos_test.Observe.Fleet.Nodes.{Header, tip_notice}
use chaos_test.Observe.Fleet.Shown.{changes}

pub record Datahub : Type 0 where
  pub url : String
  pub source : String
  pub healthy : Bool

pub record ArcadeHealth : Type 0 where
  pub healthy : Bool
  pub version : String
  pub status : String
  pub block_height : ℕ
  pub datahubs : List Datahub

unfoldable pub is_host : String → Node → Bool
is_host host n =
    str_eq host n.chaos_ip
    || (str_eq host n.ctl_ip || (str_eq host n.name || str_eq host n.container))

named_by : String → List Node → String
named_by host [] = ""
named_by host (n ∷ ns) = let later = named_by host ns in if is_host host n then n.name else later

-- `url.Parse` with `Hostname`, as an argument: none where the text is no URL.
unfoldable pub node_by_host : (String → Option String) → String → Fleet → String
unfolding named_by
node_by_host hostname raw f = elim (hostname raw) [
  | none ↦ ""
  | some host ↦ named_by host f.inv.nodes
]

unfoldable pub with_arcade_health :
    (String → Option String) → Reply ArcadeHealth → Fleet → ArcadeState → ArcadeState
with_arcade_health hostname (failed err) f a = record a {
  reachable = false;
  healthy = false;
  error = err;
}
with_arcade_health hostname (got h) f a = record a {
  reachable = true;
  error = "";
  healthy = h.healthy;
  version = h.version;
  status = h.status;
  block_height = h.block_height;
  datahubs =
      map
        (λ (d : Datahub).
          let hub : ArcadeDatahub = record {
            url = d.url;
            node = node_by_host hostname d.url f;
            source = d.source;
            healthy = d.healthy;
          } in
          hub)
        h.datahubs;
}

unfoldable pub with_arcade_tip : Reply Header → ArcadeState → List Notice × ArcadeState
with_arcade_tip (failed err) a = ([], record a { tip_error = err })
with_arcade_tip (got t) a = (
  if str_eq t.hash a.tip then [] else tip_notice "tip" "arcade" a.tip t ∷ [],
  record a { tip_error = ""; height = t.height; tip = t.hash },
)

unfoldable pub poll_arcade :
    (String → Option String) → ℕ → Reply ArcadeHealth → Reply Header → Fleet → List Notice × Fleet
poll_arcade hostname now h t f = elim f.arcade_client [
  | none ↦ ([], f)
  | some urls ↦
      let (said, a) =
        with_arcade_tip t
          (with_arcade_health hostname h f (record f.arcade { updated_at = now })) in
      (said, record f { arcade = a })
]

-- Polls of arcade, one after another.
unfoldable pub poll_arcades :
    (String → Option String)
    → List (ℕ × Reply ArcadeHealth × Reply Header)
    → Fleet
    → List Notice × Fleet
poll_arcades hostname [] f = ([], f)
poll_arcades hostname ((now, h, t) ∷ ps) f =
    let one = poll_arcade hostname now h t f in
    let rest = poll_arcades hostname ps one.1 in (one.0 ++ rest.0, rest.1)

abbrev pub tips_of : List (ℕ × Reply ArcadeHealth × Reply Header) → List (Reply Header)
tips_of ps = map (λ (p : ℕ × Reply ArcadeHealth × Reply Header). p.2) ps

unfoldable pub last_tip : String → List (Reply Header) → String
last_tip tip [] = tip
last_tip tip (failed err ∷ hs) = last_tip tip hs
last_tip tip (got h ∷ hs) = last_tip h.hash hs

module _ (hostname : String → Option String) (now : ℕ) (h : Reply ArcadeHealth) (f : Fleet)
    (urls : String × String) where
  health-tip : (a : ArcadeState) → (with_arcade_health hostname h f a).tip ≡ a.tip
  unfolding with_arcade_health
  health-tip a = ground arith

  poll_arcade-tip :
      (t : Reply Header)
      → f.arcade_client ≡ some urls
      → ((poll_arcade hostname now h t f).0 ≡ changes "arcade" f.arcade.tip (t ∷ []))
        × ((poll_arcade hostname now h t f).1.arcade_client ≡ some urls)
        × ((poll_arcade hostname now h t f).1.arcade.tip
            ≡ elim t [ failed err ↦ f.arcade.tip | got hdr ↦ hdr.hash ])
  unfolding poll_arcade with_arcade_tip changes
  poll_arcade-tip (failed err) there =
      rw (poll_arcade, there) (refl, there, health-tip (record f.arcade { updated_at = now }))
  poll_arcade-tip (got hdr) there =
      rw (poll_arcade, there)
        (rw (health-tip (record f.arcade { updated_at = now })) refl, there, refl)

-- After any polls of arcade, where it is configured, the events are exactly one for each tip that is
-- not the one before it, in their order and compared with the tip shown before them, whatever the
-- health documents said; a tip that could not be read is passed over, and the tip shown is the last
-- one that was read.
pub poll_arcades-tips :
    (hostname : String → Option String) (ps : List (ℕ × Reply ArcadeHealth × Reply Header))
    (f : Fleet) (urls : String × String)
    → f.arcade_client ≡ some urls
    → ((poll_arcades hostname ps f).0 ≡ changes "arcade" f.arcade.tip (tips_of ps))
      × ((poll_arcades hostname ps f).1.arcade.tip ≡ last_tip f.arcade.tip (tips_of ps))
unfolding poll_arcades changes last_tip
poll_arcades-tips hostname [] f urls there = (refl, refl)
poll_arcades-tips hostname ((now, h, failed err) ∷ ps) f urls there =
    let one = poll_arcade-tip hostname now h f urls (failed err) there in
    let f' : Fleet = (poll_arcade hostname now h (failed err) f).1 in
    let rest = poll_arcades-tips hostname ps f' urls one.1 in
    (rw one.0 (rest.0 ∙ rw one.2), rest.1 ∙ rw one.2)
poll_arcades-tips hostname ((now, h, got t) ∷ ps) f urls there =
    let one = poll_arcade-tip hostname now h f urls (got t) there in
    let f' : Fleet = (poll_arcade hostname now h (got t) f).1 in
    let rest = poll_arcades-tips hostname ps f' urls one.1 in
    (rw (one.0, rest.0, one.2) (ground arith), rest.1 ∙ rw one.2)
