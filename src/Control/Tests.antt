-- ===== src/Control/Tests.antt =====
-- Clients of the control socket of daemon/src/main.cpp, with the theorem at one of them.
use vcames.Common.{
  ◌≡◌, refl, true, false, none, some, [], ◌∷◌, any, all, pos, negsuc, ◌==ℤ◌, Bytes, bytes, equal,
  starts_with, find, find_index,
}
use vcames.Config.{
  Config, default_config, validate, is_push_url, validate_source, is_bad_ffmpeg_path,
  is_safe_protocol_value, is_fixed_output, is_right_angle, contains_control_character,
}
use vcames.Config.Command.{Values, parse_command, parse_int, parse_bool}
use vcames.V4l2Sink.{OpenAnswers, given, gives, v4l2_pix_fmt_mjpeg, open_device, repeated, close}
use vcames.Engine.{Engine, Problem, StartError, started_status, stop_engine, start_engine, begin}
use vcames.Engine.Status.{age_ms, wait_for_first_frame_written}
use vcames.FrameSocket.{is_allowed_peer}
use vcames.FfmpegSource.{interrupted, chunk}
use vcames.Control.{
  StartAnswers, Connection, Handled, read_request, permission_denied, status_reply,
  handle_control_client,
}
use vcames.Control.Safety.{Served, handle_control_client-Served}

abbrev in_order : Values → Values
in_order values = values

abbrev start_text : StartError → Bytes
start_text why = bytes "cannot start"

abbrev problem_text : Problem → Bytes
problem_text why = bytes "a problem"

abbrev local_config : Config
local_config = record default_config { url = bytes "push://local" }

abbrev idle_engine : Engine
idle_engine = record {
  config = local_config;
  status = started_status (pos 0) (bytes "push://local");
  latest_frame = none;
  latest_generation = 0;
  stop_requested = false;
  sink = record { fd = some 7; open_files = 7 ∷ 3 ∷ 4 ∷ [] };
}

abbrev opened : OpenAnswers
opened = record {
  opened = gives 8;
  querycap = given (record { capabilities = 16777218; device_caps = 0 }) ∷ [];
  s_fmt = given (record { width = 1280; height = 720; pixelformat = v4l2_pix_fmt_mjpeg }) ∷ [];
  s_parm = given tt ∷ [];
}

-- The writer puts one frame out.
abbrev writes_one : Engine → Engine
writes_one e = record e { status = record e.status { frames_written = 1 } }

abbrev answers : StartAnswers
answers = record { now = pos 9; opened = opened; threads_start = true; meanwhile = writes_one }

abbrev connection : Connection
connection = record {
  prime_global_camera = true;
  ffmpeg_path = bytes "/data/ffmpeg";
  extra_allowed_uid = 10123;
  credentials = some 10123;
  reads = chunk (bytes "START\nurl=pu") ∷ interrupted ∷ chunk (bytes "sh://local\n.\n") ∷ [];
  start_answers = answers;
  placeholder_answers = answers;
  reply_time = pos 12;
}

abbrev streaming : Engine
streaming =
    writes_one
      (begin (pos 9) (record local_config { ffmpeg_path = bytes "/data/ffmpeg" }) true
        (record (stop_engine idle_engine) {
          sink = record { fd = some 8; open_files = 8 ∷ 3 ∷ 4 ∷ [] };
        })).engine

abbrev started : Handled
started = status_reply start_text problem_text connection streaming

starts :
    handle_control_client start_text problem_text in_order connection idle_engine ≡ some started
unfolding handle_control_client read_request is_allowed_peer parse_command validate bytes equal
    starts_with find find_index any all parse_int parse_bool is_push_url validate_source
    is_bad_ffmpeg_path contains_control_character is_safe_protocol_value is_fixed_output ◌==ℤ◌
    is_right_angle start_engine open_device repeated close stop_engine wait_for_first_frame_written
    begin
starts = refl

refuses_others :
    handle_control_client start_text problem_text in_order
      (record connection { credentials = some 99 })
      idle_engine
    ≡ some (record { engine = idle_engine; reply = permission_denied })
unfolding handle_control_client is_allowed_peer
refuses_others = refl

handle_control_client-Served_example :
    Served start_text problem_text in_order (3 ∷ 4 ∷ []) connection idle_engine started
handle_control_client-Served_example =
    handle_control_client-Served start_text problem_text in_order (3 ∷ 4 ∷ []) connection
      idle_engine (λ e o. o) (λ e o. o) (record { accounted = refl }) started starts

ages :
    (age_ms (pos 12000000) (pos 5999999) ≡ pos 6)
    × (age_ms (pos 5) (pos 2000006) ≡ negsuc 1)
    × (age_ms (pos 5) (pos 0) ≡ negsuc 0)
unfolding age_ms
ages = (refl, refl, refl)
