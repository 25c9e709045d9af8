-- ===== src/Mjpeg.antt =====
-- daemon/src/mjpeg_parser.cpp and daemon/include/vcames/mjpeg_parser.h: frames are cut out of a stream
-- of bytes that comes in chunks. `Scan` is the reference: a machine that reads one byte at a time.
pub mod Scan
pub mod Drain
pub mod Chunks
pub mod Stream
pub mod Frames
mod Tests
use vcames.Common.{
  ℕ, zero, suc, ◌+◌, ◌-◌, ◌*◌, ◌/◌, ◌%◌, ◌^◌, ◌≤◌, ◌<◌, min, String, ◌≡◌, refl, sym, ap, subst, ◌∙◌,
  ◌≢◌, ◌↔◌, ◌⊎◌, inl, inr, Bool, true, false, not, ◌&&◌, ◌||◌, Option, none, some, List, [], ◌∷◌,
  ◌++◌, map, append-nil, append_assoc, arith, ltb, leb, ◌==◌, if◌then◌else◌, ltb→lt, lt→ltb, leb→le,
  le→leb, ==_iff, Bool-cases, Option-cases, length, is_empty, get_elem?, take, drop, replicate, any,
  all, All, length-append, take-append-drop, length-take, length-drop, take-append, drop-append,
  drop-drop, length-replicate, ℤ, pos, negsuc, ==ℤ_iff, ◌==ℤ◌, to_decimal, to_string, Bytes,
  equal_iff, equal_self, starts_with-drop, starts_with-append, find-split, find-append,
  find_index-none, find_index-some, find_index-all, find_index-append, bytes, equal, starts_with,
  find, find_index,
}

pub record MjpegParser : Type 0 where
  pub max_frame_bytes : ℕ
  pub buffer : Bytes

-- What a run of the loop leaves: the frames that the callback was given, in order, the buffer, and
-- whether it ended with the error of the safety limit.
pub record Drained : Type 0 where
  pub frames : List Bytes
  pub buffer : Bytes
  pub failed : Bool

unfoldable pub soi_marker : Bytes
soi_marker = 0xff ∷ 0xd8 ∷ []

unfoldable pub eoi_marker : Bytes
eoi_marker = 0xff ∷ 0xd9 ∷ []

-- `!buffer_.empty() && buffer_.back() == 0xff`
unfoldable pub ends_with_ff : Bytes → Bool
ends_with_ff [] = false
ends_with_ff (c ∷ []) = c == 0xff
ends_with_ff (c ∷ d ∷ s) = ends_with_ff (d ∷ s)

unfoldable pub emit : Bytes → Option Drained → Option Drained
emit frame none = none
emit frame (some d) = some (record d { frames = frame ∷ d.frames })

-- The loop's body from the point where the buffer begins with a start marker; `rest` is the loop.
unfoldable pub drain_frame : (Bytes → Option Drained) → ℕ → Bytes → Option Drained
drain_frame rest max_frame_bytes buffer = elim (find eoi_marker (drop 2 buffer)) [
  | none ↦
      if ltb max_frame_bytes (length buffer)
      then some (record { frames = []; buffer = []; failed = true })
      else some (record { frames = []; buffer = buffer; failed = false })
  | some eoi ↦
      let frame_size = eoi + 2 + 2 in emit (take frame_size buffer) (rest (drop frame_size buffer))
]

-- `for (;;)` on fuel: every round but the last takes a frame of at least four bytes away.
unfoldable pub drain : ℕ → ℕ → Bytes → Option Drained
unfolding drain_frame emit
drain zero max_frame_bytes buffer = none
drain (suc fuel) max_frame_bytes buffer = elim (find soi_marker buffer) [
  | none ↦ some (record {
    frames = [];
    buffer = if ends_with_ff buffer then 0xff ∷ [] else [];
    failed = false;
  })
  | some soi ↦ drain_frame (drain fuel max_frame_bytes) max_frame_bytes (drop soi buffer)
]

pub data Outcome : Type 0 where
  appended too_large null_pointer : Outcome

-- What `Append` returns: the frames for the callback, the parser, and `true` or an error.
pub record Appended : Type 0 where
  pub frames : List Bytes
  pub parser : MjpegParser
  pub outcome : Outcome

unfoldable pub store : MjpegParser → Drained → Appended
store p d = record {
  frames = d.frames;
  parser = record p { buffer = d.buffer };
  outcome = if d.failed then too_large else appended;
}

-- `Append`; the flag is `data != nullptr`. `none` stands for a loop that has not ended.
unfoldable pub append : MjpegParser → Bool → Bytes → Option Appended
unfolding drain store
append p given chunk =
    if not given && not (is_empty chunk)
    then some (record { frames = []; parser = p; outcome = null_pointer })
    else if is_empty chunk
    then some (record { frames = []; parser = p; outcome = appended })
    else elim (drain (length (p.buffer ++ chunk) + 1) p.max_frame_bytes (p.buffer ++ chunk)) [
      | none ↦ none
      | some d ↦ some (store p d)
    ]

-- `Reset`
unfoldable pub reset : MjpegParser → MjpegParser
reset p = record p { buffer = [] }

unfoldable pub with_frames : List Bytes → Option Appended → Option Appended
with_frames fs none = none
with_frames fs (some a) = some (record a { frames = fs ++ a.frames })

unfoldable pub after_chunk : (MjpegParser → Option Appended) → Option Appended → Option Appended
after_chunk rest none = none
after_chunk rest (some a) = elim a.outcome [
  | appended ↦ with_frames a.frames (rest a.parser)
  | too_large ↦ some a
  | null_pointer ↦ some a
]

-- The loop of `FfmpegSource::Stream` that appends what it reads from FFmpeg, chunk by chunk, and
-- stops at the first failure.
unfoldable pub feed : MjpegParser → List Bytes → Option Appended
unfolding after_chunk with_frames
feed p [] = some (record { frames = []; parser = p; outcome = appended })
feed p (c ∷ cs) = after_chunk (λ q. feed q cs) (append p true c)

-- A new parser.
unfoldable pub new_parser : ℕ → MjpegParser
new_parser max_frame_bytes = record { max_frame_bytes = max_frame_bytes; buffer = [] }
