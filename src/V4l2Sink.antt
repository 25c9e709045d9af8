-- ===== src/V4l2Sink.antt =====
-- daemon/src/v4l2_sink.cpp: the output device. What the kernel answers to the calls is an argument: for
-- each call the list of its answers, of which a call that is interrupted uses up one.
pub mod Open
pub mod Accepts
pub mod Write
mod Tests
use vcames.Common.{
  ℕ, zero, suc, ◌+◌, ◌-◌, ◌*◌, ◌/◌, ◌%◌, ◌^◌, ◌≤◌, ◌<◌, min, String, ◌≡◌, refl, sym, ap, subst, ◌∙◌,
  ◌≢◌, ◌↔◌, ◌⊎◌, inl, inr, Bool, true, false, not, ◌&&◌, ◌||◌, Option, none, some, List, [], ◌∷◌,
  ◌++◌, map, append-nil, append_assoc, arith, ltb, leb, ◌==◌, if◌then◌else◌, ltb→lt, lt→ltb, leb→le,
  le→leb, ==_iff, Bool-cases, Option-cases, length, is_empty, get_elem?, take, drop, replicate, any,
  all, All, length-append, take-append-drop, length-take, length-drop, take-append, drop-append,
  drop-drop, length-replicate, ℤ, pos, negsuc, ==ℤ_iff, ◌==ℤ◌, to_decimal, to_string, Bytes,
  equal_iff, equal_self, starts_with-drop, starts_with-append, find-split, find-starts_with,
  find-append, find_index-none, find_index-some, find_index-all, find_index-append, bytes, equal,
  starts_with, find, find_index,
}

-- What a system call gives: it was interrupted (`EINTR`), it failed with an `errno`, or it passed.
pub data Answer {ℓ} (Given : Type ℓ) : Type ℓ where
  interrupted : Answer Given
  failed : ℕ → Answer Given
  given : Given → Answer Given

-- What a call and its repetitions come to.
pub data Final {ℓ} (Given : Type ℓ) : Type ℓ where
  fails_with : ℕ → Final Given
  gives : Given → Final Given

-- `Ioctl`, and each `do … while` of the file: the call is repeated while it is interrupted. `none`:
-- the answers are used up, and the call still waits.
unfoldable pub repeated {ℓ} : {Given : Type ℓ} → List (Answer Given) → Option (Final Given)
repeated [] = none
repeated (interrupted ∷ answers) = repeated answers
repeated (failed errno ∷ answers) = some (fails_with errno)
repeated (given g ∷ answers) = some (gives g)

-- `v4l2_capability` and the fields of `v4l2_format` that are read.
pub record Capability : Type 0 where
  pub capabilities : ℕ
  pub device_caps : ℕ

pub record PixelFormat : Type 0 where
  pub width : ℕ
  pub height : ℕ
  pub pixelformat : ℕ

-- Constants of linux/videodev2.h and errno.h: a flag by the place of its bit.
abbrev pub v4l2_cap_video_output : ℕ
v4l2_cap_video_output = 1

abbrev pub v4l2_cap_readwrite : ℕ
v4l2_cap_readwrite = 24

abbrev pub v4l2_cap_device_caps : ℕ
v4l2_cap_device_caps = 31

abbrev pub v4l2_pix_fmt_mjpeg : ℕ
v4l2_pix_fmt_mjpeg = b'M' + b'J' * 256 + b'P' * 65536 + b'G' * 16777216

abbrev pub enotty : ℕ
enotty = 25

abbrev pub etimedout : ℕ
etimedout = 110

abbrev pub eagain : ℕ
eagain = 11

abbrev pub has_flag : ℕ → ℕ → Bool
has_flag flags bit = flags / 2 ^ bit % 2 == 1

-- What the kernel answers while a device is opened: `opened` is the descriptor or the `errno`.
pub record OpenAnswers : Type 0 where
  pub opened : Final ℕ
  pub querycap : List (Answer Capability)
  pub s_fmt : List (Answer PixelFormat)
  pub s_parm : List (Answer (Unit {0}))

pub data OpenError : Type 0 where
  cannot_open querycap_failed s_fmt_failed s_parm_failed : ℕ → OpenError
  not_writable rejected_geometry : OpenError

-- The sink, and the descriptors that the process has open.
pub record V4l2Sink : Type 0 where
  pub fd : Option ℕ
  pub open_files : List ℕ

unfoldable pub without : ℕ → List ℕ → List ℕ
without fd [] = []
without fd (f ∷ fs) = if f == fd then fs else f ∷ without fd fs

unfoldable pub close_held : Option ℕ → List ℕ → V4l2Sink
close_held none files = record { fd = none; open_files = files }
close_held (some fd) files = record { fd = none; open_files = without fd files }

-- `V4l2Sink::Close`
unfoldable pub close : V4l2Sink → V4l2Sink
unfolding close_held without
close sink = close_held sink.fd sink.open_files

pub record OpenResult : Type 0 where
  pub sink : V4l2Sink
  pub error : Option OpenError

-- An error return behind the opening: `Close()`, then the message.
abbrev pub give_up : V4l2Sink → OpenError → Option OpenResult
give_up sink error = some (record { sink = close sink; error = some error })

unfoldable pub is_writable : Capability → Bool
is_writable c =
    let capabilities =
      if has_flag c.capabilities v4l2_cap_device_caps then c.device_caps else c.capabilities in
    has_flag capabilities v4l2_cap_video_output && has_flag capabilities v4l2_cap_readwrite

-- `static_cast<int>` of a `uint32_t`
unfoldable pub to_int : ℕ → ℤ
to_int n = if ltb n (2 ^ 31) then pos n else negsuc (2 ^ 32 - 1 - n)

unfoldable pub is_accepted_format : ℤ → ℤ → PixelFormat → Bool
unfolding to_int
is_accepted_format width height f =
    f.pixelformat == v4l2_pix_fmt_mjpeg && to_int f.width ==ℤ width && to_int f.height ==ℤ height

unfoldable pub set_parameters : List (Answer (Unit {0})) → V4l2Sink → Option OpenResult
set_parameters answers sink = elim (repeated answers) [
  | none ↦ none
  | some (fails_with errno) ↦
      if errno == enotty
      then some (record { sink = sink; error = none })
      else give_up sink (s_parm_failed errno)
  | some (gives _) ↦ some (record { sink = sink; error = none })
]

unfoldable pub set_format : ℤ → ℤ → OpenAnswers → V4l2Sink → Option OpenResult
unfolding set_parameters is_accepted_format
set_format width height answers sink = elim (repeated answers.s_fmt) [
  | none ↦ none
  | some (fails_with errno) ↦ give_up sink (s_fmt_failed errno)
  | some (gives f) ↦
      if is_accepted_format width height f
      then set_parameters answers.s_parm sink
      else give_up sink rejected_geometry
]

unfoldable pub query_capability : ℤ → ℤ → OpenAnswers → V4l2Sink → Option OpenResult
unfolding set_format is_writable
query_capability width height answers sink = elim (repeated answers.querycap) [
  | none ↦ none
  | some (fails_with errno) ↦ give_up sink (querycap_failed errno)
  | some (gives c) ↦
      if is_writable c then set_format width height answers sink else give_up sink not_writable
]

-- `V4l2Sink::Open`; what it asks the driver for does not change what it does with the answers.
unfoldable pub open_device : ℤ → ℤ → OpenAnswers → V4l2Sink → Option OpenResult
unfolding query_capability
open_device width height answers sink =
    let closed = close sink in
    elim answers.opened [
      | fails_with errno ↦ some (record { sink = closed; error = some (cannot_open errno) })
      | gives fd ↦
          query_capability width height answers
            (record { fd = some fd; open_files = fd ∷ closed.open_files })
    ]

-- `poll` on the descriptor: nothing in time, or whether `POLLOUT` is among the events.
pub data Polled : Type 0 where
  timed_out : Polled
  ready : Bool → Polled

-- What a `write` gives: the bytes that it took, an `errno`, or `EAGAIN` with what the `poll` that
-- follows gives.
pub data Written : Type 0 where
  write_interrupted : Written
  took : ℕ → Written
  write_failed : ℕ → Written
  would_block : List (Answer Polled) → Written

pub data WriteError : Type 0 where
  sink_closed part_of_frame : WriteError
  frame_write_failed : ℕ → WriteError

abbrev pub eintr : ℕ
eintr = 4

-- `errno` behind a `poll` that is ready: that of the write, or of an interrupted `poll`.
unfoldable pub errno_behind : List (Answer Polled) → ℕ
errno_behind (interrupted ∷ polls) = eintr
errno_behind polls = eagain

-- The loop of `V4l2Sink::Write`. The inner option is the error; `none` without one is success.
unfoldable pub write_loop : List Written → Bytes → Option (Option WriteError)
unfolding errno_behind
write_loop [] jpeg = none
write_loop (write_interrupted ∷ answers) jpeg = write_loop answers jpeg
write_loop (took count ∷ answers) jpeg =
    some (if count == length jpeg then none else some part_of_frame)
write_loop (write_failed errno ∷ answers) jpeg = some (some (frame_write_failed errno))
write_loop (would_block polls ∷ answers) jpeg = elim (repeated polls) [
  | none ↦ none
  | some (fails_with errno) ↦ some (some (frame_write_failed errno))
  | some (gives timed_out) ↦ some (some (frame_write_failed etimedout))
  | some (gives (ready true)) ↦ write_loop answers jpeg
  | some (gives (ready false)) ↦ some (some (frame_write_failed (errno_behind polls)))
]

-- `V4l2Sink::Write`
unfoldable pub write_frame : List Written → Bytes → V4l2Sink → Option (Option WriteError)
unfolding write_loop
write_frame answers jpeg sink = elim sink.fd [
  | none ↦ some (some sink_closed)
  | some fd ↦ write_loop answers jpeg
]
