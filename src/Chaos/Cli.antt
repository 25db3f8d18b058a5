-- ===== src/Chaos/Cli.antt =====
-- internal/chaos/runtime.go: the arguments of cliRuntime's commands. `stamp` writes an instant in
-- UTC as RFC 3339 with its fraction.
use chaos_test.Common.{Option, none, some, ℤ, pos, List, [], ◌∷◌, ◌++◌, if◌then◌else◌}
use chaos_test.Common.Int.{pos_part, ltb_ℤ}
use chaos_test.Common.Text.{itoa}
use chaos_test.Chaos.{Instant, LogOptions, is_empty}
use chaos_test.Logs.Text.{Text, codes}

unfoldable pub network_disconnect : (network container : Text) → List Text
network_disconnect network container =
    codes "network" ∷ codes "disconnect" ∷ codes "-f" ∷ network ∷ container ∷ []

unfoldable pub network_connect : (network container ip : Text) → List Text
network_connect network container ip =
    (codes "network" ∷ codes "connect" ∷ [])
    ++ (if is_empty ip then [] else codes "--ip" ∷ ip ∷ [])
    ++ network ∷ container ∷ []

unfoldable pub pause : Text → List Text
pause c = codes "pause" ∷ c ∷ []

unfoldable pub unpause : Text → List Text
unpause c = codes "unpause" ∷ c ∷ []

unfoldable pub stop : Text → List Text
stop c = codes "stop" ∷ codes "-t" ∷ codes "10" ∷ c ∷ []

unfoldable pub start : Text → List Text
start c = codes "start" ∷ c ∷ []

unfoldable pub state : Text → List Text
state c = codes "inspect" ∷ codes "-f" ∷ codes "{{.State.Status}}" ∷ c ∷ []

log_window : (Instant → Text) → Option Instant → ℤ → List Text
log_window stamp (some at) tail = codes "--since" ∷ stamp at ∷ []
log_window stamp none tail =
    if ltb_ℤ (pos 0) tail then codes "--tail" ∷ codes (itoa (pos_part tail)) ∷ [] else []

unfoldable pub logs : (Instant → Text) → Text → LogOptions → List Text
unfolding log_window
logs stamp c opt =
    (codes "logs" ∷ [])
    ++ (if opt.timestamps then codes "--timestamps" ∷ [] else [])
    ++ log_window stamp opt.since opt.tail
    ++ c ∷ []
