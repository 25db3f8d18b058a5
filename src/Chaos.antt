-- ===== src/Chaos.antt =====
-- internal/chaos/runtime.go: which container engine is used, what it is asked for, and the windows
-- of a log that are asked for. A text is a list of its bytes; `getenv` is the environment, `stat`
-- what stands at a path, and `look_path` whether a command is installed.
use chaos_test.Common.{
  ℕ, zero, suc, ◌-◌, ℤ, pos, Bool, true, false, not, Option, none, some, String, List, [], ◌∷◌,
  ◌++◌, leb, if◌then◌else◌, length,
}
use chaos_test.Common.Text.{itoa}
use chaos_test.Common.Int.{pos_part, ltb_ℤ}
use chaos_test.Logs.Text.{Text, codes, text_eq, strip_prefix}
pub mod Stream
pub mod Read
mod Socket
mod Cli
mod Candidates
mod Engine
mod Examples

abbrev pub is_empty : Text → Bool
is_empty [] = true
is_empty (c ∷ s) = false

unfoldable pub has_path : Text → List Text → Bool
has_path p [] = false
has_path p (q ∷ out) = let rest = has_path p out in if text_eq q p then true else rest

-- The closure `add` of `socketCandidates`.
unfoldable pub add : Text → List Text → List Text
add p out = if is_empty p then out else if has_path p out then out else out ++ p ∷ []

add_host : Text → List Text → List Text
add_host host out = elim (strip_prefix (codes "unix://") host) [
  | some path ↦ add path out
  | none ↦ out
]

add_runtime_dir : Text → List Text → List Text
add_runtime_dir dir out =
    if is_empty dir
    then out
    else add (dir ++ codes "/podman/podman.sock") (add (dir ++ codes "/docker.sock") out)

unfoldable pub socket_candidates : Text → (Text → Text) → List Text
unfolding add_host add_runtime_dir
socket_candidates explicit getenv =
    let given = add_host (getenv (codes "DOCKER_HOST")) (add explicit []) in
    let docker = add (codes "/var/run/docker.sock") given in
    add (codes "/run/podman/podman.sock")
      (add_runtime_dir (getenv (codes "XDG_RUNTIME_DIR")) docker)

-- What `os.Stat` finds.
pub data Stat : Type 0 where
  absent : Stat
  socket : Stat
  directory : Stat
  other : Stat

abbrev pub join : Text → List Text → Text
join sep [] = []
join sep (s ∷ []) = s
join sep (s ∷ t ∷ ss) = s ++ sep ++ join sep (t ∷ ss)

abbrev pub directory_text : String
directory_text =
    " is a directory, not a socket: the engine socket was not bind-mounted from the host (set CONTAINER_SOCKET to the host's docker/podman socket and recreate the orchestrator)"

abbrev pub other_text : String
other_text = " is not a unix socket"

unfoldable pub directory_reason : Text → Text
directory_reason p = p ++ codes directory_text

unfoldable pub other_reason : Text → Text
other_reason p = p ++ codes other_text

-- The loop of `firstSocket`, with what it has seen, and the path with the reason.
unfoldable pub scan_sockets :
    (Text → Stat) → List Text → (missing : List Text) (reason : Text) → Text × Text
scan_sockets stat [] missing reason =
    if is_empty reason
    then ([], codes "no engine socket at " ++ join (codes ", ") missing)
    else ([], reason)
scan_sockets stat (p ∷ ps) missing reason = elim (stat p) [
  | absent ↦ scan_sockets stat ps (missing ++ p ∷ []) reason
  | socket ↦ (p, [])
  | directory ↦
      scan_sockets stat ps missing (if is_empty reason then directory_reason p else reason)
  | other ↦ scan_sockets stat ps missing (if is_empty reason then other_reason p else reason)
]

unfoldable pub first_socket : (Text → Stat) → List Text → Text × Text
first_socket stat candidates = scan_sockets stat candidates [] []

unfoldable pub cli_order : Text → List Text
cli_order runtime =
    if text_eq runtime (codes "docker")
    then codes "docker" ∷ codes "podman" ∷ []
    else codes "podman" ∷ codes "docker" ∷ []

pub data Runtime : Type 0 where
  socket_runtime : (path : Text) → Runtime
  cli_runtime : (bin : Text) → Runtime
  no_runtime : (reason : Text) → Runtime

first_installed : (Text → Bool) → List Text → Text → Runtime
first_installed look_path [] reason = no_runtime reason
first_installed look_path (bin ∷ bins) reason =
    let rest = first_installed look_path bins reason in
    if look_path bin then cli_runtime bin else rest

unfoldable pub new : (Text → Text) → (Text → Stat) → (Text → Bool) → Text → Runtime
unfolding first_installed
new getenv stat look_path socket_path =
    let found = first_socket stat (socket_candidates socket_path getenv) in
    let fallback = first_installed look_path (cli_order (getenv (codes "RUNTIME"))) found.1 in
    if is_empty found.0 then fallback else socket_runtime found.0

unfoldable pub kind : Runtime → Text
kind (socket_runtime path) = codes "socket:" ++ path
kind (cli_runtime bin) = codes "cli:" ++ bin
kind (no_runtime reason) = codes "none"

unfoldable pub reason_of : Runtime → Text
reason_of (no_runtime reason) = reason
reason_of _ = []

-- An instant from 1970 on: the seconds since, and the nanoseconds.
pub record Instant : Type 0 where
  pub seconds : ℕ
  pub nanos : ℕ

-- `since` is none for the zero time.
pub record LogOptions : Type 0 where
  pub since : Option Instant
  pub tail : ℤ
  pub timestamps : Bool
  pub ceiling : ℤ

pub record LogResult : Type 0 where
  pub text : Text
  pub bytes : ℕ
  pub truncated : Bool

abbrev pub default_max_log_bytes : ℕ
default_max_log_bytes = 8388608

unfoldable pub max_bytes : LogOptions → ℕ
max_bytes opt = if ltb_ℤ (pos 0) opt.ceiling then pos_part opt.ceiling else default_max_log_bytes

zeros : ℕ → Text
zeros zero = []
zeros (suc n) = 48 ∷ zeros n

-- `%09d`
pad_nine : ℕ → Text
unfolding zeros
pad_nine n = let t = codes (itoa n) in zeros (9 - length t) ++ t

log_window : Option Instant → ℤ → Text
unfolding pad_nine
log_window (some at) tail =
    codes "&since=" ++ codes (itoa at.seconds) ++ codes "." ++ pad_nine at.nanos
log_window none tail =
    if ltb_ℤ (pos 0) tail then codes "&tail=" ++ codes (itoa (pos_part tail)) else []

unfoldable pub log_query : LogOptions → Text
unfolding log_window
log_query opt =
    codes "?stdout=true&stderr=true"
    ++ (if opt.timestamps then codes "&timestamps=true" else [])
    ++ log_window opt.since opt.tail
