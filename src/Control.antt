-- ===== src/Control.antt =====
-- The control socket of daemon/src/main.cpp: HandleControlClient and StartGlobalPlaceholder. What the
-- kernel answers, and what the threads of the engine do while a request waits, are arguments.
pub mod Waited
pub mod Safety
pub mod Replies
mod Tests
use vcames.Common.{
  ℕ, zero, suc, ◌+◌, ◌-◌, ◌*◌, ◌/◌, ◌%◌, ◌^◌, ◌≤◌, ◌<◌, min, String, ◌≡◌, refl, sym, ap, subst, ◌∙◌,
  ◌≢◌, ◌↔◌, ◌⊎◌, inl, inr, Bool, true, false, not, ◌&&◌, ◌||◌, Option, none, some, List, [], ◌∷◌,
  ◌++◌, map, append-nil, append_assoc, arith, ltb, leb, ◌==◌, if◌then◌else◌, ltb→lt, lt→ltb, leb→le,
  le→leb, ==_iff, Bool-cases, Option-cases, length, is_empty, get_elem?, take, drop, replicate, any,
  all, All, length-append, take-append-drop, length-take, length-drop, take-append, drop-append,
  drop-drop, length-replicate, get_elem?-append_front, get_elem?-append_behind, ◌⊖◌, ◌+ℤ◌,
  shift_right_8, quarter, ⊖-pos, ⊖-negsuc, ℤ, pos, negsuc, ==ℤ_iff, ◌==ℤ◌, to_decimal, to_string,
  Bytes, equal_iff, equal_self, starts_with-drop, starts_with-append, find-split, find-starts_with,
  find-append, find_index-none, find_index-some, find_index-all, find_index-append, bytes, equal,
  starts_with, find, find_index,
}
use vcames.Failure.{Error, Result, err, ok, message}
use vcames.Config.{Config, default_config}
use vcames.Config.Command.{Command, Values, start, stop, status, parse_command}
use vcames.Config.Json.{json_escape}
use vcames.V4l2Sink.{OpenAnswers}
use vcames.Engine.{Engine, Problem, StartError, Started, stop_engine, start_engine}
use vcames.Engine.Status.{NoFrame, wait_for_first_frame_written, status_json}
use vcames.FrameSocket.{is_allowed_peer}
use vcames.FfmpegSource.{Read, interrupted, chunk}

abbrev pub max_command_bytes : ℕ
max_command_bytes = 16 * 1024

-- The loop that reads the request; a chunk holds at least one byte, and the reads end at the one that
-- gives none. `none`: too large.
unfoldable pub read_request : List Read → Bytes → Option Bytes
read_request [] request = some request
read_request (interrupted ∷ reads) request = read_request reads request
read_request (chunk bytes_read ∷ reads) request =
    let longer = request ++ bytes_read in
    let rest = read_request reads longer in
    if ltb max_command_bytes (length longer) then none else rest

-- What a start meets: the clock, the answers of the device, whether the threads can be created, and what
-- they have done to the engine when the wait for the first frame ends.
pub record StartAnswers : Type 0 where
  pub now : ℤ
  pub opened : OpenAnswers
  pub threads_start : Bool
  pub meanwhile : Engine → Engine

pub data StartProblem : Type 0 where
  not_started : StartError → StartProblem
  no_first_frame : NoFrame → StartProblem

pub record StartResult : Type 0 where
  pub engine : Engine
  pub problem : Option StartProblem

-- The result of the wait.
unfoldable pub first_frame_result : Engine → Option NoFrame → StartResult
first_frame_result e none = record { engine = e; problem = none }
first_frame_result e (some why) = record { engine = e; problem = some (no_first_frame why) }

-- The wait behind a start.
unfoldable pub wait_started : (Engine → Engine) → Option StartError → Engine → StartResult
unfolding first_frame_result
wait_started meanwhile (some why) e = record { engine = e; problem = some (not_started why) }
wait_started meanwhile none e =
    first_frame_result (meanwhile e) (wait_for_first_frame_written (meanwhile e).status)

-- `Start`, and `WaitForFirstFrameWritten` when it succeeds. `none`: the device does not answer.
unfoldable pub start_and_wait : Config → StartAnswers → Engine → Option StartResult
unfolding wait_started
start_and_wait config answers e =
    elim (start_engine answers.now config answers.opened answers.threads_start e) [
      | none ↦ none
      | some started ↦ some (wait_started answers.meanwhile started.error started.engine)
    ]

abbrev pub placeholder_config : Config
placeholder_config = record default_config {
  url = bytes "push://placeholder";
  video_device = bytes "/dev/video100";
  width = pos 1280;
  height = pos 720;
  fps = pos 30;
}

-- An engine that has started without a first frame is stopped again.
unfoldable pub end_placeholder : Option StartProblem → Engine → StartResult
end_placeholder none e = record { engine = e; problem = none }
end_placeholder (some (not_started why)) e = record { engine = e; problem = some (not_started why) }
end_placeholder (some (no_first_frame why)) e = record {
  engine = stop_engine e;
  problem = some (no_first_frame why);
}

-- `StartGlobalPlaceholder`
unfoldable pub start_global_placeholder : StartAnswers → Engine → Option StartResult
unfolding start_and_wait end_placeholder
start_global_placeholder answers e = elim (start_and_wait placeholder_config answers e) [
  | none ↦ none
  | some r ↦ some (end_placeholder r.problem r.engine)
]

-- The settings of the daemon that a request meets, and the answers of the kernel to one connection.
pub record Connection : Type 0 where
  pub prime_global_camera : Bool
  pub ffmpeg_path : Bytes
  pub extra_allowed_uid : ℕ
  pub credentials : Option ℕ
  pub reads : List Read
  pub start_answers : StartAnswers
  pub placeholder_answers : StartAnswers
  pub reply_time : ℤ

pub record Handled : Type 0 where
  pub engine : Engine
  pub reply : Bytes

unfoldable pub error_reply : Bytes → Bytes
error_reply text = bytes "{\"ok\":false,\"error\":\"" ++ (json_escape text ++ bytes "\"}\n")

abbrev pub failure : Bytes → Engine → Handled
failure text e = record { engine = e; reply = error_reply text }

abbrev pub too_large : Bytes
too_large = bytes "{\"ok\":false,\"error\":\"command too large\"}\n"

abbrev pub permission_denied : Bytes
permission_denied = bytes "{\"ok\":false,\"error\":\"permission denied\"}\n"

-- The texts of the errors that a start and a status can have.
module _ (start_text : StartError → Bytes) (problem_text : Problem → Bytes) where
  unfoldable pub problem_message : StartProblem → Bytes
  problem_message (not_started why) = start_text why
  problem_message (no_first_frame NoFrame.not_in_time) =
      bytes "V4L2 placeholder did not produce its first frame in time"
  problem_message (no_first_frame (NoFrame.stopped_by problem)) = problem_text problem

  unfoldable pub status_reply : Connection → Engine → Handled
  unfolding status_json
  status_reply c e = record {
    engine = e;
    reply = status_json problem_text c.reply_time e.status ++ bytes "\n";
  }

  -- A failed START: the placeholder comes back when the daemon keeps the camera, whatever it meets.
  unfoldable pub start_failed : Connection → StartProblem → Engine → Option Handled
  unfolding start_global_placeholder error_reply problem_message
  start_failed c why e = elim c.prime_global_camera [
    | false ↦ some (failure (problem_message why) e)
    | true ↦ elim (start_global_placeholder c.placeholder_answers e) [
      | none ↦ none
      | some r ↦ some (failure (problem_message why) r.engine)
    ]
  ]

  unfoldable pub handle_start : Connection → Config → Engine → Option Handled
  unfolding start_failed start_and_wait status_reply
  handle_start c config e =
      elim (start_and_wait (record config { ffmpeg_path = c.ffmpeg_path }) c.start_answers
        (stop_engine e)) [
          | none ↦ none
          | some r ↦ elim r.problem [
            | none ↦ some (status_reply c r.engine)
            | some why ↦ start_failed c why r.engine
          ]
        ]

  unfoldable pub handle_stop : Connection → Engine → Option Handled
  unfolding start_global_placeholder status_reply error_reply problem_message
  handle_stop c e = elim c.prime_global_camera [
    | false ↦ some (status_reply c (stop_engine e))
    | true ↦ elim (start_global_placeholder c.placeholder_answers e) [
      | none ↦ none
      | some r ↦ elim r.problem [
        | none ↦ some (status_reply c r.engine)
        | some why ↦ some (failure (problem_message why) r.engine)
      ]
    ]
  ]

  unfoldable pub handle_command : Connection → Command → Engine → Option Handled
  unfolding handle_start handle_stop status_reply
  handle_command c (start config) e = handle_start c config e
  handle_command c stop e = handle_stop c e
  handle_command c status e = some (status_reply c e)

  module _ (iteration_order : Values → Values) where
    -- From the request on.
    unfoldable pub handle_request : Connection → Option Bytes → Engine → Option Handled
    unfolding handle_command error_reply
    handle_request c none e = some (record { engine = e; reply = too_large })
    handle_request c (some request) e = elim (parse_command iteration_order true request) [
      | err why ↦ some (failure (message why) e)
      | ok command ↦ handle_command c command e
    ]

    -- `HandleControlClient`
    unfoldable pub handle_control_client : Connection → Engine → Option Handled
    unfolding handle_request read_request is_allowed_peer
    handle_control_client c e =
        if not (is_allowed_peer c.credentials c.extra_allowed_uid)
        then some (record { engine = e; reply = permission_denied })
        else handle_request c (read_request c.reads []) e
