-- ===== src/Chaos/Engine.antt =====
-- internal/chaos/runtime.go: the candidates for the engine's socket, and the engine that `New` picks.
use mathlib.Core.Path.{subst}
use chaos_test.Common.{
  ◌≡◌, ◌≢◌, refl, ap, sym, ◌⊎◌, inl, inr, Bool, true, false, List, [], ◌∷◌, ◌++◌, arith, All,
  All-append, All-append_right, Bool-cases, Option-cases, if◌then◌else◌,
}
use chaos_test.Chaos.{
  is_empty, has_path, add, add_host, add_runtime_dir, socket_candidates, Stat, socket, first_socket,
  cli_order, Runtime, socket_runtime, cli_runtime, no_runtime, first_installed, new,
}
use chaos_test.Chaos.Candidates.{IsFirstSocket, Explains, Found, scan_sockets-Found}
use chaos_test.Logs.Text.{Text, codes, text_eq, text_eq_iff, strip_prefix}

abbrev pub Differ : List Text → Type 0
Differ [] = Unit
Differ (p ∷ ps) = (has_path p ps ≡ false) × Differ ps

-- No candidate is empty, and none stands in the list twice.
abbrev pub AreCandidates : List Text → Type 0
AreCandidates ps = All (λ p. is_empty p ≡ false) ps × Differ ps

text_eq-sym : (p q : Text) → text_eq p q ≡ false → text_eq q p ≡ false
text_eq-sym p q h = elim (Bool-cases (text_eq q p)) [
  | inl e ↦ let same : text_eq p q ≡ true = (text_eq_iff p q).1 (sym ((text_eq_iff q p).0 e)) in cc
  | inr e ↦ e
]

has_path-append :
    (q p : Text) (ps : List Text)
    → has_path q ps ≡ false
    → text_eq p q ≡ false
    → has_path q (ps ++ p ∷ []) ≡ false
unfolding has_path
has_path-append q p [] h e = rw e
has_path-append q p (r ∷ ps) h e =
    let apart : text_eq r q ≡ false = ground (arith, h) in
    let later : has_path q ps ≡ false = ground (arith, h) in
    rw apart (has_path-append q p ps later e)

Differ-append :
    (p : Text) (ps : List Text) → has_path p ps ≡ false → Differ ps → Differ (ps ++ p ∷ [])
unfolding has_path
Differ-append p [] h d = (refl, tt)
Differ-append p (q ∷ ps) h d =
    let apart : text_eq q p ≡ false = ground (arith, h) in
    let later : has_path p ps ≡ false = ground (arith, h) in
    (has_path-append q p ps d.0 (text_eq-sym q p apart), Differ-append p ps later d.1)

add-AreCandidates : (p : Text) (ps : List Text) → AreCandidates ps → AreCandidates (add p ps)
unfolding add
add-AreCandidates p ps h = elim (Bool-cases (is_empty p)) [
  | inl e ↦ rw e h
  | inr e ↦ elim (Bool-cases (has_path p ps)) [
    | inl m ↦ rw (e, m) h
    | inr m ↦ rw (e, m) (All-append _ ps (p ∷ []) h.0 (e, tt), Differ-append p ps m h.1)
  ]
]

add_host-AreCandidates :
    (host : Text) (ps : List Text) → AreCandidates ps → AreCandidates (add_host host ps)
unfolding add_host
add_host-AreCandidates host ps h = elim (Option-cases (strip_prefix (codes "unix://") host)) [
  | inl e ↦ rw (e, add_host) h
  | inr (path, e) ↦ rw (e, add_host) (add-AreCandidates path ps h)
]

add_runtime_dir-AreCandidates :
    (dir : Text) (ps : List Text) → AreCandidates ps → AreCandidates (add_runtime_dir dir ps)
unfolding add_runtime_dir
add_runtime_dir-AreCandidates [] ps h = h
add_runtime_dir-AreCandidates (c ∷ dir) ps h =
    add-AreCandidates _ _ (add-AreCandidates ((c ∷ dir) ++ codes "/docker.sock") ps h)

-- Whatever the environment, no candidate for the engine's socket is empty, and none is tried twice.
pub socket_candidates-AreCandidates :
    (explicit : Text) (getenv : Text → Text) → AreCandidates (socket_candidates explicit getenv)
unfolding socket_candidates
socket_candidates-AreCandidates explicit getenv = add-AreCandidates _ _ (
    add_runtime_dir-AreCandidates _ _
      (add-AreCandidates _ _ (add_host-AreCandidates _ _ (add-AreCandidates explicit [] (tt, tt)))))

-- The first of the commands that is installed.
abbrev pub IsInstalled : (Text → Bool) → List Text → Text → Type 0
IsInstalled look_path bins bin =
    (before : List Text) × (after : List Text) × (bins ≡ before ++ bin ∷ after)
    × All (λ b. look_path b ≡ false) before
    × (look_path bin ≡ true)

-- Without a socket: the first command that is installed, or none, with the reason.
abbrev pub IsFallback : (Text → Bool) → List Text → Text → Runtime → Type 0
IsFallback look_path bins reason r =
    ((bin : Text) × (r ≡ cli_runtime bin) × IsInstalled look_path bins bin)
    ⊎ (r ≡ no_runtime reason) × All (λ b. look_path b ≡ false) bins

later_bin :
    (look_path : Text → Bool) (b : Text) (bins : List Text) (reason : Text) (r : Runtime)
    → look_path b ≡ false
    → IsFallback look_path bins reason r
    → IsFallback look_path (b ∷ bins) reason r
later_bin look_path b bins reason r h (inl (bin, is_bin, (before, after, split, missing, found))) =
    inl (bin, is_bin, (b ∷ before, after, ap (◌∷◌ b) split, (h, missing), found))
later_bin look_path b bins reason r h (inr (is_none, missing)) = inr (is_none, (h, missing))

first_installed-IsFallback :
    (look_path : Text → Bool) (bins : List Text) (reason : Text)
    → IsFallback look_path bins reason (first_installed look_path bins reason)
unfolding first_installed
first_installed-IsFallback look_path [] reason = inr (refl, tt)
first_installed-IsFallback look_path (b ∷ bins) reason = elim (Bool-cases (look_path b)) [
  | inl e ↦ inl (b, rw e, ([], bins, refl, tt, e))
  | inr e ↦
      let skip : first_installed look_path (b ∷ bins) reason
          ≡ first_installed look_path bins reason =
        rw (e, first_installed) in
      subst (IsFallback look_path (b ∷ bins) reason) (sym skip)
        (later_bin look_path b bins reason _ e (first_installed-IsFallback look_path bins reason))
]

first_not_empty :
    (stat : Text → Stat) (ps : List Text) (p : Text)
    → All (λ p. is_empty p ≡ false) ps
    → IsFirstSocket stat ps p
    → is_empty p ≡ false
first_not_empty stat ps p h (before, after, split, _, _) =
    (All-append_right (λ p. is_empty p ≡ false) before (p ∷ after)
      (subst (All (λ p. is_empty p ≡ false)) split h)).0

-- What `New` may return: the first candidate that is a socket; where none is, a fallback, whose
-- reason says something of the candidates.
abbrev pub IsChosen : (Text → Stat) → (Text → Bool) → (ps bins : List Text) → Runtime → Type 0
IsChosen stat look_path ps bins r =
    ((p : Text) × (r ≡ socket_runtime p) × IsFirstSocket stat ps p)
    ⊎ All (λ q. stat q ≢ socket) ps
      × ((reason : Text) × Explains stat ps [] reason × IsFallback look_path bins reason r)

abbrev choose : (Text → Bool) → List Text → Text × Text → Runtime
choose look_path bins found =
    let fallback = first_installed look_path bins found.1 in
    if is_empty found.0 then fallback else socket_runtime found.0

choose-IsChosen :
    (stat : Text → Stat) (look_path : Text → Bool) (ps bins : List Text) (found : Text × Text)
    → All (λ p. is_empty p ≡ false) ps
    → Found stat ps [] [] found
    → IsChosen stat look_path ps bins (choose look_path bins found)
choose-IsChosen stat look_path ps bins found h (inl (first, silent)) =
    let full : is_empty found.0 ≡ false = first_not_empty stat ps found.0 h first in
    inl (found.0, rw full, first)
choose-IsChosen stat look_path ps bins found h (inr (others, no_path, inl (full, _))) = cc
choose-IsChosen stat look_path ps bins found h (inr (others, no_path, inr (_, explains))) = inr (
  others,
  (
    found.1,
    explains,
    subst (λ p. IsFallback look_path bins found.1 (choose look_path bins (p, found.1)))
        (sym no_path) (first_installed-IsFallback look_path bins found.1),
  ),
)

-- `New` returns the runtime of the first candidate that is a socket. Where no candidate is one, it
-- returns the first command of `cliOrder` that is installed; and where none is installed, a runtime
-- whose reason lists the candidates, if they all are missing, and else begins with the first that
-- is not missing.
pub new-IsChosen :
    (getenv : Text → Text) (stat : Text → Stat) (look_path : Text → Bool) (socket_path : Text)
    → IsChosen stat look_path
        (socket_candidates socket_path getenv)
        (cli_order (getenv (codes "RUNTIME")))
        (new getenv stat look_path socket_path)
unfolding new first_socket
new-IsChosen getenv stat look_path socket_path =
    let ps : List Text = socket_candidates socket_path getenv in
    choose-IsChosen stat look_path ps _ _ (socket_candidates-AreCandidates socket_path getenv).0
      (scan_sockets-Found stat ps [] [])
