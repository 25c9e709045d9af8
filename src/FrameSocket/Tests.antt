-- ===== src/FrameSocket/Tests.antt =====
-- Two frames over a connection that is cut into reads of three bytes, and the theorems at them.
use vcames.Common.{
  ℕ, ◌+◌, ◌≡◌, refl, true, false, none, some, [], ◌∷◌, ◌++◌, arith, leb, if◌then◌else◌, length,
  take, drop, ℤ, pos, Bytes, bytes, equal,
}
use vcames.Config.{default_config}
use vcames.V4l2Sink.{to_int}
use vcames.Engine.{
  Engine, started_status, push_nv21_frame, publish_frame, accept_frame, is_producer_active,
  is_valid_nv21,
}
use vcames.FrameSocket.{TypedFrame, handle_frame_client, read_exact, is_allowed_peer, to_int_64}
use vcames.FrameSocket.Read.{read_exact_lem}
use vcames.FrameSocket.RoundTrip.{IsCarried, frames_of, push_all, handle_frame_client-frames_of}

abbrev engine : Engine
engine = record {
  config = record default_config { url = bytes "push://local" };
  status = started_status (pos 0) (bytes "push://local");
  latest_frame = none;
  latest_generation = 1;
  stop_requested = false;
  sink = record { fd = some 7; open_files = 7 ∷ [] };
}

abbrev frame : TypedFrame
frame = record { width = 2; height = 2; timestamp = 5; payload = 1 ∷ 2 ∷ 3 ∷ 4 ∷ 5 ∷ 6 ∷ [] }

abbrev by_threes : ℕ → ℕ
by_threes left = 2

abbrev clock : ℕ → ℤ
clock number = pos (100 + number)

reads_whole :
    read_exact by_threes 5 (1 ∷ 2 ∷ 3 ∷ 4 ∷ 5 ∷ 6 ∷ []) ≡ some (1 ∷ 2 ∷ 3 ∷ 4 ∷ 5 ∷ [], 6 ∷ [])
unfolding read_exact
reads_whole = refl

peers : (is_allowed_peer (some 10001) 10001 ≡ true) × (is_allowed_peer (some 2000) 10001 ≡ false)
unfolding is_allowed_peer
peers = (refl, refl)

receives : (push_all clock 0 (frame ∷ frame ∷ []) engine).status.frames_received ≡ 2
unfolding push_all push_nv21_frame to_int to_int_64 is_producer_active started_status bytes equal
    is_valid_nv21 publish_frame accept_frame
receives = refl

carried : IsCarried frame
carried = record {
  some_columns = omega arith;
  some_rows = omega arith;
  width_fits = omega arith;
  height_fits = omega arith;
  timestamp_fits = omega arith;
  some_bytes = omega arith;
  few_bytes = omega arith;
}

handle_frame_client-frames_of_example :
    handle_frame_client by_threes clock true (bytes "VCF2" ++ frames_of (frame ∷ frame ∷ [])) engine
    ≡ push_all clock 0 (frame ∷ frame ∷ []) engine
handle_frame_client-frames_of_example =
    handle_frame_client-frames_of by_threes clock (frame ∷ frame ∷ []) engine
      (carried, (carried, tt))

abbrev three_bytes : Bytes
three_bytes = 1 ∷ 2 ∷ 3 ∷ []

read_exact_lem_example :
    read_exact by_threes 5 three_bytes
    ≡ (if leb 5 (length three_bytes) then some (take 5 three_bytes, drop 5 three_bytes) else none)
read_exact_lem_example = read_exact_lem by_threes 5 three_bytes
