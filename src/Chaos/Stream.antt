-- ===== src/Chaos/Stream.antt =====
-- internal/chaos/runtime.go: `demuxLogStream`, which strips the headers of the engine's stream of
-- frames, and the frames as the engine writes them.
use Prim.Native.Nat.{min}
use chaos_test.Common.{
  ℕ, zero, suc, ◌+◌, ◌-◌, ◌*◌, ◌/◌, ◌%◌, Bool, true, false, ◌&&◌, List, [], ◌∷◌, ◌++◌, leb, ltb,
  ◌==◌, if◌then◌else◌, length, take, drop,
}
pub mod Frames
use chaos_test.Chaos.{is_empty}
use chaos_test.Logs.Text.{Text}

-- Whether the stream goes on with a valid header.
unfoldable pub is_header : Text → Bool
is_header (a ∷ b ∷ c ∷ d ∷ e ∷ f ∷ g ∷ h ∷ rest) = leb a 2 && b == 0 && c == 0 && d == 0
is_header _ = false

-- The length of the payload behind a header.
unfoldable pub frame_size : Text → ℕ
frame_size (a ∷ b ∷ c ∷ d ∷ e ∷ f ∷ g ∷ h ∷ rest) = e * 16777216 + f * 65536 + g * 256 + h
frame_size _ = 0

-- The loop, with the bytes written so far. A round takes eight bytes at least.
unfoldable pub demux_loop : ℕ → Text → Text → Text
demux_loop zero out b = out
demux_loop (suc f) out [] = out
demux_loop (suc f) out (c ∷ b) =
    let body = drop 8 (c ∷ b) in
    let n = min (frame_size (c ∷ b)) (length body) in
    let rest = demux_loop f (out ++ take n body) (drop n body) in
    if is_header (c ∷ b) then rest else if is_empty out then c ∷ b else out ++ c ∷ b

unfoldable pub demux_log_stream : Text → Text
demux_log_stream b = demux_loop (length b) [] b

-- A frame as the engine writes it: the number of its stream, three zero bytes, and the length of
-- the payload with its highest byte first.
abbrev pub header : ℕ → ℕ → Text
header stream n = stream ∷ 0 ∷ 0 ∷ 0 ∷ n / 16777216 ∷ n / 65536 % 256 ∷ n / 256 % 256 ∷ n % 256 ∷ []

abbrev pub frame : ℕ × Text → Text
frame (stream, payload) = header stream (length payload) ++ payload

abbrev pub mux : List (ℕ × Text) → Text
mux [] = []
mux (f ∷ fs) = frame f ++ mux fs

abbrev pub contents : List (ℕ × Text) → Text
contents [] = []
contents (f ∷ fs) = f.1 ++ contents fs
