-- ===== src/Engine/Session/Tests.antt =====
-- A session in which a frame is passed over, one is refused and one is written, and a start of the
-- engine, with the theorems at them.
use vcames.Common.{
  ◌+◌, ◌≤◌, ◌≡◌, refl, inl, true, false, none, some, List, [], ◌∷◌, arith, get_elem?, replicate,
  any, pos, ◌==ℤ◌, Bytes, bytes, equal, starts_with,
}
use vcames.Config.{
  Config, default_config, validate, is_push_url, is_safe_protocol_value, is_fixed_output,
  is_right_angle, contains_control_character,
}
use vcames.V4l2Sink.{
  V4l2Sink, OpenAnswers, given, gives, took, v4l2_pix_fmt_mjpeg, open_device, repeated, close,
  write_frame,
}
use vcames.Engine.{
  Engine, SourceFrame, nv21, started_status, Started, start_engine, begin, stop_engine,
  publish_frame, accept_frame, refuse_frame,
}
use vcames.Engine.Writer.{ImageTransform, System, transform_frame}
use vcames.Engine.Session.{Event, publish, wake, transform, write, run}
use vcames.Engine.Session.Accounting.{IsFresh, run-accounted}
use vcames.Engine.Session.Books.{history, nothing_yet, claimed}
use vcames.Engine.Backoff.{source_waits, source_waits-get_elem?}
use vcames.Engine.Start.{StartLeaves, new_writer, start_engine-StartLeaves}

abbrev local_config : Config
local_config = record default_config { url = bytes "push://local" }

abbrev sink : V4l2Sink
sink = record { fd = none; open_files = 3 ∷ 4 ∷ [] }

abbrev frame_of : Bytes → SourceFrame
frame_of payload = record {
  payload = payload;
  format = nv21;
  width = pos 2;
  height = pos 1;
  presentation_time_ns = pos 0;
  arrival_time_ns = pos 0;
}

-- Every picture is taken as it is.
abbrev images : ImageTransform
images = record {
  transform_jpeg_to_nv21 = λ payload c. inl (payload, pos 2, pos 1);
  transform_nv21 = λ payload w h c. inl payload;
  nv21_to_jpeg = λ picture w h. inl (0xff ∷ picture);
}

abbrev idle_engine : Engine
idle_engine = record {
  config = local_config;
  status = started_status (pos 0) (bytes "push://local");
  latest_frame = some (frame_of (1 ∷ 1 ∷ 1 ∷ 1 ∷ []));
  latest_generation = 1;
  stop_requested = false;
  sink = record { fd = some 7; open_files = 7 ∷ 3 ∷ 4 ∷ [] };
}

abbrev first_state : System
first_state = record { engine = idle_engine; writer = new_writer 0 }

abbrev events : List Event
events =
    publish (pos 1) (frame_of (2 ∷ 2 ∷ 2 ∷ 2 ∷ []))
    ∷ publish (pos 2) (frame_of [])
    ∷ wake 10
    ∷ transform
    ∷ write 11 (took 5 ∷ [])
    ∷ []

counts_frames :
    let status = (run images events first_state).engine.status in
    (status.frames_received ≡ 1) × (status.frames_written ≡ 1) × (status.frames_dropped ≡ 2)
unfolding run started_status publish_frame accept_frame refuse_frame write_frame transform_frame
counts_frames = (refl, refl, refl)

is_fresh : IsFresh first_state
unfolding started_status
is_fresh = record {
  none_received = refl;
  none_dropped = refl;
  first_generation = refl;
  first_frame = (frame_of (1 ∷ 1 ∷ 1 ∷ 1 ∷ []), refl);
  at_start = refl;
  none_consumed = refl;
}

run-accounted_example :
    let s' = run images events first_state in
    let h = history images events first_state nothing_yet in
    (s'.engine.status.frames_received + 1 ≡ s'.engine.latest_generation)
    × (claimed s'.writer ≤ s'.engine.latest_generation)
    × (s'.engine.status.frames_dropped + h.taken ≡ claimed s'.writer + h.refused + h.broken)
run-accounted_example = run-accounted images events first_state is_fresh (omega arith)

abbrev answers : OpenAnswers
answers = record {
  opened = gives 8;
  querycap = given (record { capabilities = 16777218; device_caps = 0 }) ∷ [];
  s_fmt = given (record { width = 1280; height = 720; pixelformat = v4l2_pix_fmt_mjpeg }) ∷ [];
  s_parm = given tt ∷ [];
}

abbrev restarted : Started
restarted = begin (pos 9) local_config true (record (stop_engine idle_engine) {
  sink = record { fd = some 8; open_files = 8 ∷ 3 ∷ 4 ∷ [] };
})

restarts : start_engine (pos 9) local_config answers true idle_engine ≡ some restarted
unfolding start_engine validate bytes equal starts_with any is_push_url is_safe_protocol_value
    contains_control_character is_fixed_output is_right_angle ◌==ℤ◌ open_device repeated close
    stop_engine
restarts = refl

start_engine-StartLeaves_example :
    StartLeaves (3 ∷ 4 ∷ []) local_config idle_engine restarted.error restarted.engine
start_engine-StartLeaves_example =
    start_engine-StartLeaves (3 ∷ 4 ∷ []) (pos 9) local_config answers true idle_engine restarted
      (record { accounted = refl }) restarts

source_waits-get_elem?_example : get_elem? (source_waits 16 (true ∷ replicate 7 false)) 6 ≡ some 30
source_waits-get_elem?_example = source_waits-get_elem? 16 7 6 (omega arith)
