-- ===== src/Chaos/Examples.antt =====
-- internal/chaos/runtime.go at concrete inputs: an engine behind DOCKER_HOST, and a log of two
-- frames that is cut off.
use chaos_test.Common.{
  ℕ, ◌≡◌, refl, Bool, true, false, none, some, List, [], ◌∷◌, ◌++◌, arith, pos, negsuc,
  if◌then◌else◌, take,
}
use chaos_test.Chaos.{
  add, has_path, socket_candidates, Stat, absent, socket, directory, scan_sockets, first_socket,
  cli_order, new, LogOptions, LogResult, max_bytes, log_query, socket_runtime,
}
use chaos_test.Common.Text.{itoa}
use chaos_test.Chaos.Engine.{IsChosen, new-IsChosen}
use chaos_test.Chaos.Read.{
  logs, cli_logs, get_limited, logs_text, to_last_newline, answered, or_whole, after_newline,
}
use chaos_test.Chaos.Read.Windows.{IsWindow, logs-IsWindow}
use chaos_test.Chaos.Socket.{network_disconnect, post, leaving, take_reply, replied}
use chaos_test.Chaos.Stream.{
  demux_log_stream, demux_loop, is_header, frame_size, mux, header, frame,
}
use chaos_test.Logs.Text.{Text, codes, text_eq, strip_prefix}

abbrev env : Text → Text
env name = if text_eq name (codes "DOCKER_HOST") then codes "unix:///run/d.sock" else []

-- A directory stands where the socket was to be mounted.
abbrev mounted : Text → Stat
mounted p =
    if text_eq p (codes "/var/run/docker.sock")
    then directory
    else if text_eq p (codes "/run/podman/podman.sock")
    then socket
    else absent

abbrev no_command : Text → Bool
no_command bin = false

tried :
    socket_candidates (codes "/run/d.sock") env
    ≡ codes "/run/d.sock" ∷ codes "/var/run/docker.sock" ∷ codes "/run/podman/podman.sock" ∷ []
unfolding socket_candidates text_eq strip_prefix add has_path
tried = refl

podman_is_used : new env mounted no_command [] ≡ socket_runtime (codes "/run/podman/podman.sock")
unfolding new socket_candidates first_socket scan_sockets cli_order text_eq strip_prefix add
    has_path
podman_is_used = refl

new-IsChosen_example :
    IsChosen mounted no_command
      (socket_candidates [] env)
      (cli_order (env (codes "RUNTIME")))
      (new env mounted no_command [])
new-IsChosen_example = new-IsChosen env mounted no_command []

abbrev two_frames : List (ℕ × Text)
two_frames = (1, codes "up\nru") ∷ (2, codes "n\n") ∷ []

abbrev cut_log : LogResult
cut_log = record { text = codes "up\n"; bytes = 16; truncated = true }

logs-IsWindow_example :
    (r : LogResult) × (logs 16 (answered 200 (mux two_frames)) ≡ some r)
    × IsWindow 16 23 (codes "up\nrun\n") r
logs-IsWindow_example =
    logs-IsWindow 16 200 two_frames
      ((
        (omega arith, omega arith, (refl, (refl, (refl, (refl, (refl, (refl, (refl, tt)))))))),
        (
          (omega arith, omega arith, (refl, (refl, (refl, (refl, (refl, (refl, (refl, tt)))))))),
          tt,
        ),
      ))
      (omega arith)

two_lines_cut : logs 16 (answered 200 (mux two_frames)) ≡ some cut_log
unfolding logs demux_log_stream get_limited logs_text or_whole to_last_newline demux_loop is_header
    frame_size
two_lines_cut = refl

-- The next frame has 2560 bytes, and the read stops before the last byte of its header: the byte
-- before that is 10, and the piece of the header is handed on as if it were a line.
header_leaks :
    to_last_newline (demux_log_stream (frame (1, codes "a\n") ++ take 7 (header 1 2560)))
    ≡ some (codes "a\n" ++ take 7 (header 1 2560))
unfolding to_last_newline demux_log_stream demux_loop is_header frame_size
header_leaks = refl

-- The command line keeps the newest lines.
newest_kept :
    cli_logs 4 (some (codes "one\nto\n"))
    ≡ some record { text = codes "to\n"; bytes = 7; truncated = true }
unfolding cli_logs or_whole after_newline
newest_kept = refl

abbrev last_minute : LogOptions
last_minute = record {
  since = some record { seconds = 60; nanos = 7 };
  tail = pos 5;
  timestamps = true;
  ceiling = negsuc 0;
}

asked : log_query last_minute ≡ codes "?stdout=true&stderr=true&timestamps=true&since=60.000000007"
unfolding log_query itoa
asked = refl

default_ceiling : max_bytes last_minute ≡ 8388608
unfolding max_bytes
default_ceiling = refl

by_force : network_disconnect (codes "node") (codes "c1") ≡ record {
  method = post;
  path = codes "/networks/node/disconnect";
  body = some (leaving (codes "c1") true);
}
unfolding network_disconnect
by_force = refl

refused_is_lost : take_reply (replied 304 []) ≡ none
unfolding take_reply
refused_is_lost = refl
