-- ===== src/FfmpegSource/Diagnostic.antt =====
-- The loop of daemon/src/ffmpeg_source.cpp: how much of the diagnostic output of FFmpeg is kept.
use vcames.Common.{
  ℕ, ◌+◌, ◌-◌, ◌≤◌, min, ◌≡◌, inl, inr, Bool, true, false, ◌||◌, some, List, [], ◌∷◌, ◌++◌, arith,
  ltb, ◌==◌, if◌then◌else◌, Bool-cases, Option-cases, length, take, length-append, length-take,
  Bytes,
}
use vcames.Mjpeg.{feed}
use vcames.V4l2Sink.Open.{Final-cases}
use vcames.FfmpegSource.{
  is_late, eintr, polling_failed, is_given, chunks_of, WaitAnswer, reaped, no_child, pending,
  max_diagnostic_bytes, Read, interrupted, chunk, drain_diagnostic, Streaming, Round,
  read_diagnostic, read_output, after_output, check_time, check_child, after_poll, poll_round,
  poll_loop,
}

pub drain_diagnostic-le :
    (reads : List Read) (diagnostic : Bytes)
    → length diagnostic ≤ max_diagnostic_bytes
    → length (drain_diagnostic reads diagnostic) ≤ max_diagnostic_bytes
unfolding drain_diagnostic
drain_diagnostic-le [] diagnostic h = h
drain_diagnostic-le (interrupted ∷ reads) diagnostic h = drain_diagnostic-le reads diagnostic h
drain_diagnostic-le (chunk more ∷ reads) diagnostic h =
    let available =
      if ltb (length diagnostic) max_diagnostic_bytes
      then max_diagnostic_bytes - length diagnostic
      else 0 in
    drain_diagnostic-le reads (diagnostic ++ take (min available (length more)) more) (
      rw
        (
          length-append diagnostic (take (min available (length more)) more),
          length-take (min available (length more)) more,
        )
        (room (ltb (length diagnostic) max_diagnostic_bytes) (length more)))
  where
    room :
        (t : Bool) (n : ℕ)
        → length diagnostic
            + min (min (if t then max_diagnostic_bytes - length diagnostic else 0) n) n
          ≤ max_diagnostic_bytes
    room true n = omega (arith, h)
    room false n = omega (arith, h)

-- The diagnostic stays short.
abbrev pub IsShort : Streaming → Type 0
IsShort s = length s.diagnostic ≤ max_diagnostic_bytes

check_child-IsShort :
    (started : ℕ) (r : Round) (w : WaitAnswer) (s : Streaming)
    → IsShort s
    → IsShort (check_child started r w s)
unfolding check_child check_time
check_child-IsShort started r (reaped status) s h = h
check_child-IsShort started r no_child s h = h
check_child-IsShort started r pending s h = elim (Bool-cases (is_late started r.now s)) [
  | inl late ↦ rw late h
  | inr timely ↦ rw timely h
]

read_diagnostic-IsShort :
    (ready : Bool) (r : Round) (s : Streaming) → IsShort s → IsShort (read_diagnostic ready r s)
unfolding read_diagnostic
read_diagnostic-IsShort true r s h = drain_diagnostic-le r.diagnostic_reads s.diagnostic h
read_diagnostic-IsShort false r s h = h

read_output-IsShort :
    (ready : Bool) (r : Round) (s s' : Streaming)
    → IsShort s
    → read_output ready r s ≡ some s'
    → IsShort s'
unfolding read_output after_output
read_output-IsShort false r s s' h e = let same : s ≡ s' = cc in rw (← same) h
read_output-IsShort true r s s' h e =
    elim (Option-cases (feed s.parser (chunks_of r.output_reads))) [
      | inl missing ↦ cc (rw missing at e)
      | inr (a, fed) ↦ let same : after_output r a s ≡ s' = cc (rw fed at e) in rw (← same) h
    ]

after_poll-IsShort :
    (started : ℕ) (diagnostic_ready output_ready : Bool) (r : Round) (s s' : Streaming)
    → IsShort s
    → after_poll started diagnostic_ready output_ready r s ≡ some s'
    → IsShort s'
unfolding after_poll
after_poll-IsShort started d o r s s' h e =
    elim (Option-cases (read_output o r (read_diagnostic d r s))) [
      | inl missing ↦ cc (rw (after_poll, missing) at e)
      | inr (t, is) ↦
          let same : check_child started r r.waited t ≡ s' = cc (rw (after_poll, is) at e) in
          rw (← same) (
            check_child-IsShort started r r.waited t (
              read_output-IsShort o r (read_diagnostic d r s) t (read_diagnostic-IsShort d r s h)
                is))
    ]

poll_round-IsShort :
    (started : ℕ) (r : Round) (s s' : Streaming)
    → IsShort s
    → poll_round started r s ≡ some s'
    → IsShort s'
unfolding poll_round
poll_round-IsShort started r s s' h e = elim (Final-cases r.polled) [
  | inr ((d, o), is) ↦ after_poll-IsShort started d o r s s' h (rw is at e)
  | inl (errno, is) ↦ elim (Bool-cases (errno == eintr)) [
    | inl again ↦ after_poll-IsShort started false false r s s' h (rw (is, again) at e)
    | inr broken ↦
        let same : record s { problem = some (polling_failed errno); over = true } ≡ s' =
          cc (rw (is, broken) at e) in
        rw (← same) h
  ]
]

pub poll_loop-IsShort :
    (started : ℕ) (rounds : List Round) (s s' : Streaming)
    → IsShort s
    → poll_loop started rounds s ≡ some s'
    → IsShort s'
unfolding poll_loop
poll_loop-IsShort started [] s s' h e = cc
poll_loop-IsShort started (r ∷ rounds) s s' h e = elim (Bool-cases (r.stop || is_given s.problem)) [
  | inl stops ↦ let same : s ≡ s' = cc (rw stops at e) in rw (← same) h
  | inr goes ↦ elim (Option-cases (poll_round started r s)) [
    | inl missing ↦ cc (rw (goes, missing) at e)
    | inr (t, is) ↦
        let short = poll_round-IsShort started r s t h is in
        elim (Bool-cases t.over) [
          | inl left ↦ let same : t ≡ s' = cc (rw (goes, is, left) at e) in rw (← same) short
          | inr on ↦ poll_loop-IsShort started rounds t s' short (rw (goes, is, on) at e)
        ]
  ]
]
