-- ===== src/FfmpegSource/Run.antt =====
-- `FfmpegSource::Stream` of daemon/src/ffmpeg_source.cpp: the start of the child, and the end of the run.
use vcames.Common.{
  ℕ, zero, suc, ◌*◌, ◌/◌, ◌%◌, String, Bool, true, false, not, ◌&&◌, ◌||◌, Option, none, some, List,
  [], ◌∷◌, map, ◌==◌, if◌then◌else◌, is_empty, ℤ, Bytes, bytes,
}
use vcames.Mjpeg.{new_parser}
use vcames.Stream.{StreamSourceSpec}
use vcames.Stream.Ffmpeg.{build_ffmpeg_arguments}
use vcames.V4l2Sink.{Final, fails_with, gives}
use vcames.FfmpegSource.{
  Process, opens, reset, forget, WaitAnswer, terminate_child, Read, drain_diagnostic, FfmpegError,
  not_executable, no_pipes, not_started, bad_pipe_mode, exit_code, stop_signal, ended_early,
  suppressed, Streaming, Round, poll_loop,
}

-- The whole environment of the child.
abbrev pub environment_storage : List String
environment_storage =
    "ANDROID_DATA=/data" ∷ "ANDROID_ROOT=/system" ∷ "AV_LOG_FORCE_NOCOLOR=1"
    ∷ "HOME=/data/adb/vcames" ∷ "LC_ALL=C" ∷ "PATH=/system/bin:/system/xbin"
    ∷ "TMPDIR=/data/adb/vcames" ∷ []

abbrev pub mega : ℕ
mega = 1024 * 1024

-- What `posix_spawn` is asked for.
pub record Command : Type 0 where
  pub path : Bytes
  pub arguments : List Bytes
  pub environment : List Bytes

-- What the kernel and the library answer to one run. The two lists hold the results of the calls that
-- prepare the file actions and the attributes; an error of `fcntl` is its `errno`.
pub record Answers : Type 0 where
  pub is_executable : Bool
  pub output_pipe : Final (ℕ × ℕ)
  pub diagnostic_pipe : Final (ℕ × ℕ)
  pub actions : List ℕ
  pub attributes : List ℕ
  pub spawned : Command → Final ℕ
  pub output_mode : Option ℕ
  pub diagnostic_mode : Option ℕ
  pub started : ℕ
  pub rounds : List Round
  pub last_diagnostics : List Read
  pub terminated : List WaitAnswer
  pub stop_at_end : Bool

-- What a run leaves: the process, what it returns, its error, and the frames that it has passed on.
pub record Streamed : Type 0 where
  pub process : Process
  pub returned : Bool
  pub error : Option FfmpegError
  pub frames : List Bytes
  pub diagnostic : Bytes

abbrev pub fails : FfmpegError → Process → Option Streamed
fails why p =
    some (record { process = p; returned = false; error = some why; frames = []; diagnostic = [] })

-- The result of a chain of calls each of which is made when those before it gave 0.
unfoldable pub first_error : List ℕ → ℕ
first_error [] = 0
first_error (e ∷ es) = elim e [ zero ↦ first_error es | suc n ↦ suc n ]

unfoldable pub spawn_error : List ℕ → List ℕ → ℕ
unfolding first_error
spawn_error actions attributes =
    if first_error actions == 0 && not (first_error attributes == 0)
    then first_error attributes
    else first_error actions

-- `WIFEXITED`, `WEXITSTATUS`, `WIFSIGNALED` and `WTERMSIG`
abbrev pub has_exited : ℕ → Bool
has_exited status = status % 128 == 0

abbrev pub exit_status : ℕ → ℕ
exit_status status = status / 256 % 256

abbrev pub is_signalled : ℕ → Bool
is_signalled status = not (status % 128 == 0) && not (status % 128 == 127)

abbrev pub term_signal : ℕ → ℕ
term_signal status = status % 128

-- The error of a run that nobody asked to stop.
unfoldable pub run_error : Streaming → FfmpegError
run_error s = elim s.problem [
  | some why ↦ why
  | none ↦
      if s.child_exited && has_exited s.child_status
      then exit_code (exit_status s.child_status)
      else if s.child_exited && is_signalled s.child_status
      then stop_signal (term_signal s.child_status)
      else if is_empty s.diagnostic
      then ended_early
      else suppressed
]

unfoldable pub streamed : Bool → Streaming → Process → Streamed
unfolding run_error
streamed stop s p = record {
  process = p;
  returned = stop;
  error = if stop then none else some (run_error s);
  frames = s.frames;
  diagnostic = s.diagnostic;
}

-- A child that has exited was waited for in the loop.
unfoldable pub end_child : Bool → ℕ → List WaitAnswer → Process → Option Process
unfolding terminate_child forget
end_child exited child answers p =
    if exited then some (forget child p) else terminate_child child answers p

-- The destructors of the four descriptors, the last one first.
unfoldable pub close_all : Option ℕ → Option ℕ → Option ℕ → Option ℕ → Process → Process
unfolding reset
close_all output_read output_write diagnostic_read diagnostic_write p =
    reset output_read (reset output_write (reset diagnostic_read (reset diagnostic_write p)))

-- What follows the loop.
unfoldable pub finish_run : Answers → ℕ → Streaming → Process → Option Streamed
unfolding end_child streamed drain_diagnostic
finish_run answers child s p =
    let s' = record s { diagnostic = drain_diagnostic answers.last_diagnostics s.diagnostic } in
    elim (end_child s.child_exited child answers.terminated p) [
      | none ↦ none
      | some p' ↦ some (streamed answers.stop_at_end s' p')
    ]

unfoldable pub first_streaming : ℕ → Streaming
first_streaming started = record {
  parser = new_parser (16 * mega);
  frames = [];
  connected = false;
  last_frame = started;
  diagnostic = [];
  problem = none;
  child_exited = false;
  child_status = 0;
  over = false;
}

-- What a run leaves when its descriptors are destroyed.
abbrev pub closing : (Process → Process) → Option Streamed → Option Streamed
closing closes none = none
closing closes (some r) = some (record r { process = closes r.process })

abbrev pub give_up : ℕ → List WaitAnswer → FfmpegError → Process → Option Streamed
give_up child answers why p = elim (terminate_child child answers p) [
  | none ↦ none
  | some p' ↦ fails why p'
]

-- From the running child on: `SetNonBlocking` on both pipes, the loop, and what follows it.
unfoldable pub run_child : Answers → ℕ → Process → Option Streamed
unfolding terminate_child finish_run first_streaming poll_loop
run_child answers child p = elim answers.output_mode [
  | some errno ↦ give_up child answers.terminated (bad_pipe_mode errno) p
  | none ↦ elim answers.diagnostic_mode [
    | some errno ↦ give_up child answers.terminated (bad_pipe_mode errno) p
    | none ↦ elim (poll_loop answers.started answers.rounds (first_streaming answers.started)) [
      | none ↦ none
      | some s ↦ finish_run answers child s p
    ]
  ]
]

-- `posix_spawn`, when its preparation has succeeded.
unfoldable pub spawn_result : Answers → Command → Final ℕ
unfolding spawn_error
spawn_result answers command = elim (spawn_error answers.actions answers.attributes) [
  | zero ↦ answers.spawned command
  | suc n ↦ fails_with (suc n)
]

-- From the open pipes on.
unfoldable pub run_with_pipes : Answers → Command → ℕ × ℕ → ℕ × ℕ → Process → Option Streamed
unfolding spawn_result run_child close_all
run_with_pipes answers command (output_read, output_write) (diagnostic_read, diagnostic_write) p =
    elim (spawn_result answers command) [
      | fails_with errno ↦
          closing
            (close_all (some output_read) (some output_write) (some diagnostic_read)
              (some diagnostic_write))
            (fails (not_started errno) p)
      | gives child ↦ closing (close_all (some output_read) none (some diagnostic_read) none) (
          run_child answers child (
            reset (some diagnostic_write)
              (reset (some output_write) (record p { children = child ∷ p.children }))))
    ]

abbrev pub opens_pipe : ℕ × ℕ → Process → Process
opens_pipe (read_end, write_end) p = opens write_end (opens read_end p)

-- The two calls of `pipe2`; what the first has opened is closed when the second fails.
unfoldable pub open_pipes : Answers → Command → Process → Option Streamed
unfolding run_with_pipes reset
open_pipes answers command p = elim answers.output_pipe [
  | fails_with errno ↦ fails (no_pipes errno) p
  | gives output ↦ elim answers.diagnostic_pipe [
    | fails_with errno ↦
        fails (no_pipes errno) (reset (some output.1) (reset (some output.0) (opens_pipe output p)))
    | gives diagnostic ↦
        run_with_pipes answers command output diagnostic
          (opens_pipe diagnostic (opens_pipe output p))
  ]
]

-- `ffmpeg_path.empty() || ffmpeg_path.front() != '/'`
unfoldable pub is_not_absolute : Bytes → Bool
is_not_absolute [] = true
is_not_absolute (c ∷ path) = not (c == b'/')

-- `FfmpegSource::Stream`. `none`: a call still waits, or the loop goes on.
unfoldable pub stream : Bytes → Bytes → ℤ → StreamSourceSpec → Answers → Process → Option Streamed
unfolding open_pipes is_not_absolute
stream ffmpeg_path url fps spec answers p =
    if is_not_absolute ffmpeg_path || not answers.is_executable
    then fails not_executable p
    else open_pipes answers
        (record {
          path = ffmpeg_path;
          arguments = build_ffmpeg_arguments ffmpeg_path url fps spec;
          environment = map bytes environment_storage;
        })
        p
