-- ===== src/FfmpegSource.antt =====
-- daemon/src/ffmpeg_source.cpp: the FFmpeg child process of one run, with its pipes, its signals and the
-- loop that reads from it. What the kernel answers is an argument.
pub mod Run
pub mod Diagnostic
pub mod Child
pub mod Ended
pub mod Released
pub mod Timeout
mod Tests
use vcames.Common.{
  ℕ, zero, suc, ◌+◌, ◌-◌, ◌*◌, ◌/◌, ◌%◌, ◌^◌, ◌≤◌, ◌<◌, min, String, ◌≡◌, refl, sym, ap, subst, ◌∙◌,
  ◌≢◌, ◌↔◌, ◌⊎◌, inl, inr, Bool, true, false, not, ◌&&◌, ◌||◌, Option, none, some, List, [], ◌∷◌,
  ◌++◌, map, append-nil, append_assoc, arith, ltb, leb, ◌==◌, if◌then◌else◌, ltb→lt, lt→ltb, leb→le,
  le→leb, ==_iff, Bool-cases, Option-cases, length, is_empty, get_elem?, take, drop, replicate, any,
  all, All, length-append, take-append-drop, length-take, length-drop, take-append, drop-append,
  drop-drop, length-replicate, get_elem?-append_front, get_elem?-append_behind, ◌⊖◌, ◌+ℤ◌,
  shift_right_8, quarter, ⊖-pos, ⊖-negsuc, ℤ, pos, negsuc, ==ℤ_iff, ◌==ℤ◌, to_decimal, to_string,
  Bytes, equal_iff, equal_self, starts_with-drop, starts_with-append, find-split, find-starts_with,
  find-append, find_index-none, find_index-some, find_index-all, find_index-append, bytes, equal,
  starts_with, find, find_index,
}
use vcames.Mjpeg.{MjpegParser, Appended, Outcome, appended, feed, new_parser}
use vcames.V4l2Sink.{Final, fails_with, gives, without}

pub data Signal : Type 0 where
  sigterm sigkill : Signal

-- The descriptors that the process has open, its children that have not been waited for, and the signals
-- that it has sent to process groups.
pub record Process : Type 0 where
  pub open_files : List ℕ
  pub children : List ℕ
  pub signals : List (Signal × ℕ)

abbrev pub opens : ℕ → Process → Process
opens fd p = record p { open_files = fd ∷ p.open_files }

-- `FileDescriptor::Reset()`, which its destructor calls; -1 is `none`.
unfoldable pub reset : Option ℕ → Process → Process
unfolding without
reset none p = p
reset (some fd) p = record p { open_files = without fd p.open_files }

unfoldable pub forget : ℕ → Process → Process
unfolding without
forget child p = record p { children = without child p.children }

abbrev pub kills : ℕ → Signal → Process → Process
kills child signal p = record p { signals = (signal, child) ∷ p.signals }

-- What `waitpid` answers: the child with its status, that there is no such child (`ECHILD`), or neither.
pub data WaitAnswer : Type 0 where
  reaped : ℕ → WaitAnswer
  no_child pending : WaitAnswer

-- The last loop of `TerminateChild`, which an interrupted call goes round. `none`: the answers are used
-- up, and the call still waits.
unfoldable pub wait_for_end : ℕ → List WaitAnswer → Process → Option Process
unfolding forget
wait_for_end child [] p = none
wait_for_end child (pending ∷ answers) p = wait_for_end child answers p
wait_for_end child (reaped _ ∷ answers) p = some (forget child p)
wait_for_end child (no_child ∷ answers) p = some (forget child p)

-- The attempts that are left, and then the kill.
unfoldable pub wait_politely : ℕ → ℕ → List WaitAnswer → Process → Option Process
unfolding forget wait_for_end
wait_politely zero child answers p = wait_for_end child answers (kills child sigkill p)
wait_politely (suc attempts) child [] p = none
wait_politely (suc attempts) child (pending ∷ answers) p = wait_politely attempts child answers p
wait_politely (suc attempts) child (reaped _ ∷ answers) p = some (forget child p)
wait_politely (suc attempts) child (no_child ∷ answers) p = some (forget child p)

-- `TerminateChild`
unfoldable pub terminate_child : ℕ → List WaitAnswer → Process → Option Process
unfolding wait_politely
terminate_child zero answers p = some p
terminate_child (suc pid) answers p = wait_politely 20 (suc pid) answers (kills (suc pid) sigterm p)

abbrev pub max_diagnostic_bytes : ℕ
max_diagnostic_bytes = 8 * 1024

-- A read that the loops go on behind; the list of them ends where a read gives no bytes.
pub data Read : Type 0 where
  interrupted : Read
  chunk : Bytes → Read

-- `DrainDiagnostic`
unfoldable pub drain_diagnostic : List Read → Bytes → Bytes
drain_diagnostic [] diagnostic = diagnostic
drain_diagnostic (interrupted ∷ reads) diagnostic = drain_diagnostic reads diagnostic
drain_diagnostic (chunk bytes_read ∷ reads) diagnostic =
    let available =
      if ltb (length diagnostic) max_diagnostic_bytes
      then max_diagnostic_bytes - length diagnostic
      else 0 in
    drain_diagnostic reads (diagnostic ++ take (min available (length bytes_read)) bytes_read)

-- What the reads of the output bring.
unfoldable pub chunks_of : List Read → List Bytes
chunks_of [] = []
chunks_of (interrupted ∷ reads) = chunks_of reads
chunks_of (chunk bytes_read ∷ reads) = bytes_read ∷ chunks_of reads

pub data FfmpegError : Type 0 where
  not_executable : FfmpegError
  no_pipes not_started bad_pipe_mode polling_failed : ℕ → FfmpegError
  not_parsed no_first_frame no_frame : FfmpegError
  exit_code stop_signal : ℕ → FfmpegError
  ended_early suppressed : FfmpegError

-- The variables of the loop. The clock is in milliseconds; `over` says that a `break` has left the loop.
pub record Streaming : Type 0 where
  pub parser : MjpegParser
  pub frames : List Bytes
  pub connected : Bool
  pub last_frame : ℕ
  pub diagnostic : Bytes
  pub problem : Option FfmpegError
  pub child_exited : Bool
  pub child_status : ℕ
  pub over : Bool

-- What one round of the loop finds: `stop_requested`, the result of `poll` with what it reports, what the
-- reads bring, the answer of `waitpid`, and the clock at a frame and at the end.
pub record Round : Type 0 where
  pub stop : Bool
  pub polled : Final (Bool × Bool)
  pub diagnostic_reads : List Read
  pub output_reads : List Read
  pub frame_time : ℕ
  pub waited : WaitAnswer
  pub now : ℕ

abbrev pub eintr : ℕ
eintr = 4

unfoldable pub read_diagnostic : Bool → Round → Streaming → Streaming
unfolding drain_diagnostic
read_diagnostic ready r s =
    if ready then record s { diagnostic = drain_diagnostic r.diagnostic_reads s.diagnostic } else s

abbrev pub parse_problem : Outcome → Option FfmpegError → Option FfmpegError
parse_problem appended problem = problem
parse_problem _ problem = some not_parsed

-- The callback of the parser notes the time of a frame; the first one connects.
unfoldable pub after_output : Round → Appended → Streaming → Streaming
after_output r a s = record s {
  parser = a.parser;
  frames = s.frames ++ a.frames;
  connected = if is_empty a.frames then s.connected else true;
  last_frame = if is_empty a.frames then s.last_frame else r.frame_time;
  problem = parse_problem a.outcome s.problem;
}

unfoldable pub read_output : Bool → Round → Streaming → Option Streaming
unfolding after_output chunks_of
read_output ready r s =
    if ready
    then elim (feed s.parser (chunks_of r.output_reads)) [
      | none ↦ none
      | some a ↦ some (after_output r a s)
    ]
    else some s

abbrev pub is_late : ℕ → ℕ → Streaming → Bool
is_late started now s =
    if s.connected then ltb (s.last_frame + 15000) now else ltb (started + 20000) now

unfoldable pub check_time : ℕ → ℕ → Streaming → Streaming
check_time started now s =
    if is_late started now s
    then record s { problem = some (if s.connected then no_frame else no_first_frame) }
    else s

unfoldable pub check_child : ℕ → Round → WaitAnswer → Streaming → Streaming
unfolding check_time
check_child started r (reaped status) s = record s {
  child_exited = true;
  child_status = status;
  over = true;
}
check_child started r no_child s = record s { child_exited = true; over = true }
check_child started r pending s = check_time started r.now s

unfoldable pub after_poll : ℕ → Bool → Bool → Round → Streaming → Option Streaming
unfolding read_diagnostic read_output check_child
after_poll started diagnostic_ready output_ready r s =
    elim (read_output output_ready r (read_diagnostic diagnostic_ready r s)) [
      | none ↦ none
      | some s' ↦ some (check_child started r r.waited s')
    ]

-- One round of the loop; an interrupted `poll` reports nothing.
unfoldable pub poll_round : ℕ → Round → Streaming → Option Streaming
unfolding after_poll
poll_round started r s = elim r.polled [
  | fails_with errno ↦
      if errno == eintr
      then after_poll started false false r s
      else some (record s { problem = some (polling_failed errno); over = true })
  | gives (diagnostic_ready, output_ready) ↦ after_poll started diagnostic_ready output_ready r s
]

abbrev pub is_given {ℓ} : {A : Type ℓ} → Option A → Bool
is_given none = false
is_given (some a) = true

-- The loop. `none`: the rounds are used up, and the loop goes on.
unfoldable pub poll_loop : ℕ → List Round → Streaming → Option Streaming
unfolding poll_round
poll_loop started [] s = none
poll_loop started (r ∷ rounds) s =
    if r.stop || is_given s.problem then some s else elim (poll_round started r s) [
      | none ↦ none
      | some s' ↦ elim s'.over [ true ↦ some s' | false ↦ poll_loop started rounds s' ]
    ]
