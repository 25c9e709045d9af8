-- ===== src/Engine.antt =====
-- daemon/src/engine.cpp and daemon/include/vcames/engine.h: the shared state of the engine and what each
-- region under its mutex does to it.
pub mod Writer
pub mod Session
pub mod Placeholder
pub mod Start
pub mod Backoff
pub mod Pictures
pub mod Status
use vcames.Common.{
  ℕ, zero, suc, ◌+◌, ◌-◌, ◌*◌, ◌/◌, ◌%◌, ◌^◌, ◌≤◌, ◌<◌, min, String, ◌≡◌, refl, sym, ap, subst, ◌∙◌,
  ◌≢◌, ◌↔◌, ◌⊎◌, inl, inr, Bool, true, false, not, ◌&&◌, ◌||◌, Option, none, some, List, [], ◌∷◌,
  ◌++◌, map, append-nil, append_assoc, arith, ltb, leb, ◌==◌, if◌then◌else◌, ltb→lt, lt→ltb, leb→le,
  le→leb, ==_iff, Bool-cases, Option-cases, length, is_empty, get_elem?, take, drop, replicate, any,
  all, All, length-append, take-append-drop, length-take, length-drop, take-append, drop-append,
  drop-drop, length-replicate, ℤ, pos, negsuc, ==ℤ_iff, ◌==ℤ◌, to_decimal, to_string, Bytes,
  equal_iff, equal_self, starts_with-drop, starts_with-append, find-split, find-starts_with,
  find-append, find_index-none, find_index-some, find_index-all, find_index-append, bytes, equal,
  starts_with, find, find_index,
}
use vcames.Failure.{Error, Result, err, ok}
use vcames.Stream.{StreamSourceSpec, parse_stream_source_url}
use vcames.Config.{Config, validate}
use vcames.V4l2Sink.{V4l2Sink, OpenAnswers, OpenError, OpenResult, WriteError, close, open_device}

abbrev pub max_frame_bytes : ℕ
max_frame_bytes = 16 * 1024 * 1024

pub data SourceFormat : Type 0 where
  jpeg nv21 : SourceFormat

pub record SourceFrame : Type 0 where
  pub payload : Bytes
  pub format : SourceFormat
  pub width : ℤ
  pub height : ℤ
  pub presentation_time_ns : ℤ
  pub arrival_time_ns : ℤ

-- The texts that `status_.error` holds; an empty one is `none`.
pub data Problem : Type 0 where
  frame_refused : Problem
  transform_problem stream_problem : Bytes → Problem
  sink_problem : WriteError → Problem

pub record RuntimeStatus : Type 0 where
  pub running : Bool
  pub source_connected : Bool
  pub sink_open : Bool
  pub frames_received : ℕ
  pub frames_written : ℕ
  pub frames_dropped : ℕ
  pub source_width : ℤ
  pub source_height : ℤ
  pub source_label : Bytes
  pub frame_format : Bytes
  pub error : Option Problem
  pub last_frame_time : ℤ

pub record Engine : Type 0 where
  pub config : Config
  pub status : RuntimeStatus
  pub latest_frame : Option SourceFrame
  pub latest_generation : ℕ
  pub stop_requested : Bool
  pub sink : V4l2Sink

-- `uint64_t` arithmetic.
abbrev pub add_count : ℕ → ℕ → ℕ
add_count a b = (a + b) % 2 ^ 64

abbrev pub sub_count : ℕ → ℕ → ℕ
sub_count a b = (a + (2 ^ 64 - b)) % 2 ^ 64

-- The two ends of `Engine::PublishFrame`; `now` is the steady clock.
unfoldable pub refuse_frame : Engine → Engine
refuse_frame e = record e {
  status = record e.status {
    frames_dropped = add_count e.status.frames_dropped 1;
    error = some frame_refused;
  };
}

unfoldable pub accept_frame : ℤ → SourceFrame → Engine → Engine
accept_frame now frame e = record e {
  latest_frame = some frame;
  latest_generation = add_count e.latest_generation 1;
  status = record e.status {
    frames_received = add_count e.status.frames_received 1;
    source_connected = true;
    last_frame_time = now;
  };
}

-- `Engine::PublishFrame`
unfoldable pub publish_frame : ℤ → SourceFrame → Engine → Engine
publish_frame now frame e =
    if ltb (length frame.payload) 4 || ltb max_frame_bytes (length frame.payload)
    then refuse_frame e
    else accept_frame now frame e

pub data PushError : Type 0 where
  not_active bad_jpeg_size bad_nv21 : PushError

pub record Pushed : Type 0 where
  pub engine : Engine
  pub error : Option PushError

abbrev pub refuse : Engine → PushError → Pushed
refuse e why = record { engine = e; error = some why }

unfoldable pub is_producer_active : Engine → Bool
is_producer_active e = e.status.running && equal e.config.url (bytes "push://local")

abbrev pub jpeg_frame : ℤ → Bytes → SourceFrame
jpeg_frame now payload = record {
  payload = payload;
  format = jpeg;
  width = pos 0;
  height = pos 0;
  presentation_time_ns = now;
  arrival_time_ns = now;
}

abbrev pub nv21_frame : ℤ → Bytes → ℤ → ℤ → ℤ → SourceFrame
nv21_frame now payload width height presentation_time_ns = record {
  payload = payload;
  format = nv21;
  width = width;
  height = height;
  presentation_time_ns = presentation_time_ns;
  arrival_time_ns = now;
}

-- `Engine::PushFrame`
unfoldable pub push_frame : ℤ → Bytes → Engine → Pushed
unfolding publish_frame is_producer_active
push_frame now payload e =
    if not (is_producer_active e)
    then refuse e not_active
    else if ltb (length payload) 4 || ltb max_frame_bytes (length payload)
    then refuse e bad_jpeg_size
    else record { engine = publish_frame now (jpeg_frame now payload) e; error = none }

-- `width` and `height` are positive; no product of two `int` wraps a `size_t`.
unfoldable pub is_nv21_size : ℕ → ℕ → ℕ → Bool
is_nv21_size width height size =
    let pixels = width * height in
    not (width == 0)
    && not (height == 0)
    && width % 2 == 0
    && height % 2 == 0
    && leb pixels (3840 * 2160)
    && size == pixels * 3 / 2
    && leb size max_frame_bytes

unfoldable pub is_valid_nv21 : ℤ → ℤ → ℕ → Bool
unfolding is_nv21_size
is_valid_nv21 (pos width) (pos height) size = is_nv21_size width height size
is_valid_nv21 _ _ size = false

-- `Engine::PushNv21Frame`
unfoldable pub push_nv21_frame : ℤ → Bytes → ℤ → ℤ → ℤ → Engine → Pushed
unfolding publish_frame is_producer_active is_valid_nv21
push_nv21_frame now payload width height presentation_time_ns e =
    if not (is_producer_active e)
    then refuse e not_active
    else if not (is_valid_nv21 width height (length payload))
    then refuse e bad_nv21
    else record {
      engine = publish_frame now (nv21_frame now payload width height presentation_time_ns) e;
      error = none;
    }

-- `Engine::Stop`, when the threads have been joined.
unfoldable pub stop_engine : Engine → Engine
stop_engine e = record e {
  stop_requested = true;
  status = record e.status { running = false; source_connected = false; sink_open = false };
  latest_frame = none;
  sink = close e.sink;
}

unfoldable pub source_label_of : Bytes → Bytes
source_label_of url =
    if equal url (bytes "push://local")
    then bytes "LOCAL_SAF"
    else if equal url (bytes "push://placeholder")
    then bytes "GLOBAL_PLACEHOLDER"
    else elim (parse_stream_source_url true url) [
      | ok source ↦ source.label
      | err _ ↦ bytes "UNKNOWN"
    ]

abbrev magnitude : ℤ → ℕ
magnitude (pos n) = n
magnitude (negsuc n) = 0

-- A grey picture: Y is 16, U and V are 128.
unfoldable pub placeholder : ℤ → ℤ → ℤ → SourceFrame
placeholder now width height =
    let pixels = magnitude width * magnitude height in
    record {
      payload = replicate pixels 16 ++ replicate (pixels * 3 / 2 - pixels) 128;
      format = nv21;
      width = width;
      height = height;
      presentation_time_ns = now;
      arrival_time_ns = now;
    }

unfoldable pub started_status : ℤ → Bytes → RuntimeStatus
unfolding source_label_of
started_status now url = record {
  running = true;
  source_connected = false;
  sink_open = true;
  frames_received = 0;
  frames_written = 0;
  frames_dropped = 0;
  source_width = pos 0;
  source_height = pos 0;
  source_label = source_label_of url;
  frame_format = bytes "none";
  error = none;
  last_frame_time = now;
}

pub data StartError : Type 0 where
  bad_config : Error → StartError
  no_device : OpenError → StartError
  no_thread : StartError

pub record Started : Type 0 where
  pub engine : Engine
  pub error : Option StartError

-- The state that the threads find.
unfoldable pub ready : ℤ → Config → Engine → Engine
unfolding started_status
ready now config e = record e {
  config = config;
  status = started_status now config.url;
  latest_frame = some (placeholder now config.width config.height);
  latest_generation = 1;
  stop_requested = false;
}

-- When the threads cannot be created, `Stop` follows.
unfoldable pub begin : ℤ → Config → Bool → Engine → Started
unfolding stop_engine ready
begin now config threads_start e =
    if threads_start
    then record { engine = ready now config e; error = none }
    else record { engine = stop_engine (ready now config e); error = some no_thread }

-- `Engine::Start`; `none` when a call of `V4l2Sink::Open` still waits.
unfoldable pub start_engine : ℤ → Config → OpenAnswers → Bool → Engine → Option Started
start_engine now config answers threads_start e = elim (validate config) [
  | err why ↦ some (record { engine = e; error = some (bad_config why) })
  | ok _ ↦
      let stopped = stop_engine e in
      elim (open_device config.width config.height answers stopped.sink) [
        | none ↦ none
        | some opened ↦ elim opened.error [
          | some why ↦ some (record {
            engine = record stopped { sink = opened.sink };
            error = some (no_device why);
          })
          | none ↦ some (begin now config threads_start (record stopped { sink = opened.sink }))
        ]
      ]
]
