-- ===== src/FfmpegSource/Timeout.antt =====
-- The loop of daemon/src/ffmpeg_source.cpp when FFmpeg gives no frames.
use vcames.Common.{
  ℕ, ◌+◌, ◌≤◌, ◌<◌, ◌≡◌, refl, ◌∙◌, ◌⊎◌, inl, inr, Bool, true, false, ◌||◌, some, List, [], ◌∷◌,
  ◌++◌, append-nil, arith, ◌==◌, if◌then◌else◌, Bool-cases, any, All,
}
use vcames.Mjpeg.{feed}
use vcames.V4l2Sink.Open.{Final-cases}
use vcames.FfmpegSource.{
  WaitAnswer, reaped, no_child, pending, chunks_of, polling_failed, Streaming, Round, eintr,
  read_diagnostic, after_output, read_output, is_late, check_time, check_child, after_poll,
  poll_round, is_given, poll_loop,
}

-- When the loop gives up on the stream.
abbrev pub deadline : ℕ → Streaming → ℕ
deadline started s = if s.connected then s.last_frame + 15000 else started + 20000

abbrev pub IsQuiet : Round → Type 0
IsQuiet r = chunks_of r.output_reads ≡ []

-- Nothing has come.
record IsSame (s t : Streaming) : Type 0 where
  frames_kept : t.frames ≡ s.frames
  connected_kept : t.connected ≡ s.connected
  time_kept : t.last_frame ≡ s.last_frame
  over_kept : t.over ≡ s.over

-- Why the loop ended.
abbrev pub HasCause : Streaming → Type 0
HasCause t = (is_given t.problem ≡ true) ⊎ (t.child_exited ≡ true)

read_diagnostic-IsSame :
    (ready : Bool) (r : Round) (s : Streaming) → IsSame s (read_diagnostic ready r s)
unfolding read_diagnostic
read_diagnostic-IsSame true r s = record {
  frames_kept = refl;
  connected_kept = refl;
  time_kept = refl;
  over_kept = refl;
}
read_diagnostic-IsSame false r s = record {
  frames_kept = refl;
  connected_kept = refl;
  time_kept = refl;
  over_kept = refl;
}

read_output-IsSame :
    (ready : Bool) (r : Round) (s : Streaming)
    → IsQuiet r
    → (t : Streaming) × (read_output ready r s ≡ some t) × IsSame s t
unfolding read_output after_output feed
read_output-IsSame false r s quiet = (
  s,
  refl,
  record { frames_kept = refl; connected_kept = refl; time_kept = refl; over_kept = refl },
)
read_output-IsSame true r s quiet =
    rw (read_output, quiet)
      (
        _,
        refl,
        record {
          frames_kept = append-nil s.frames;
          connected_kept = refl;
          time_kept = refl;
          over_kept = refl;
        },
      )

-- A round in which the loop goes on has found the clock before the deadline, or a problem.
record IsRound (started : ℕ) (r : Round) (s t : Streaming) : Type 0 where
  frames_same : t.frames ≡ s.frames
  connected_same : t.connected ≡ s.connected
  time_same : t.last_frame ≡ s.last_frame
  over_has_cause : t.over ≡ true → HasCause t
  late_has_problem : t.over ≡ false → deadline started s < r.now → is_given t.problem ≡ true

not_late :
    (started now : ℕ) (t : Streaming) → is_late started now t ≡ false → now ≤ deadline started t
not_late started now t h = ground arith

check_child-IsRound :
    (started : ℕ) (r : Round) (w : WaitAnswer) (s t : Streaming)
    → s.over ≡ false
    → IsSame s t
    → IsRound started r s (check_child started r w t)
unfolding check_child check_time
check_child-IsRound started r (reaped status) s t going same = record {
  frames_same = same.frames_kept;
  connected_same = same.connected_kept;
  time_same = same.time_kept;
  over_has_cause = λ _. inr refl;
  late_has_problem = λ n. cc;
}
check_child-IsRound started r no_child s t going same = record {
  frames_same = same.frames_kept;
  connected_same = same.connected_kept;
  time_same = same.time_kept;
  over_has_cause = λ _. inr refl;
  late_has_problem = λ n. cc;
}
check_child-IsRound started r pending s t going same = elim (Bool-cases (is_late started r.now t)) [
  | inl late ↦ rw late (record {
    frames_same = same.frames_kept;
    connected_same = same.connected_kept;
    time_same = same.time_kept;
    over_has_cause = λ _. inl refl;
    late_has_problem = λ _ _. refl;
  })
  | inr timely ↦
      let on_time = not_late started r.now t timely in
      let same_deadline : deadline started t ≡ deadline started s =
        rw (same.connected_kept, same.time_kept) refl in
      rw timely (record {
        frames_same = same.frames_kept;
        connected_same = same.connected_kept;
        time_same = same.time_kept;
        over_has_cause = λ left. cc (left, same.over_kept, going);
        late_has_problem = λ _ past. absurd (omega (arith, on_time, same_deadline, past));
      })
]

after_poll-IsRound :
    (started : ℕ) (d o : Bool) (r : Round) (s : Streaming)
    → IsQuiet r
    → s.over ≡ false
    → (t : Streaming) × (after_poll started d o r s ≡ some t) × IsRound started r s t
unfolding after_poll
after_poll-IsRound started d o r s quiet going =
    let first = read_diagnostic-IsSame d r s in
    let (t, is, second) = read_output-IsSame o r (read_diagnostic d r s) quiet in
    let same : IsSame s t = record {
      frames_kept = second.frames_kept ∙ first.frames_kept;
      connected_kept = second.connected_kept ∙ first.connected_kept;
      time_kept = second.time_kept ∙ first.time_kept;
      over_kept = second.over_kept ∙ first.over_kept;
    } in
    rw (after_poll, is)
      (
        check_child started r r.waited t,
        refl,
        check_child-IsRound started r r.waited s t going same,
      )

poll_round-IsRound :
    (started : ℕ) (r : Round) (s : Streaming)
    → IsQuiet r
    → s.over ≡ false
    → (t : Streaming) × (poll_round started r s ≡ some t) × IsRound started r s t
unfolding poll_round
poll_round-IsRound started r s quiet going = elim (Final-cases r.polled) [
  | inr ((d, o), is) ↦
      let polls : poll_round started r s ≡ after_poll started d o r s = rw (poll_round, is) refl in
      let (t, is_t, round) = after_poll-IsRound started d o r s quiet going in
      (t, polls ∙ is_t, round)
  | inl (errno, is) ↦ elim (Bool-cases (errno == eintr)) [
    | inl again ↦
        let polls : poll_round started r s ≡ after_poll started false false r s =
          rw (poll_round, is, again) refl in
        let (t, is_t, round) = after_poll-IsRound started false false r s quiet going in
        (t, polls ∙ is_t, round)
    | inr broken ↦ (
      record s { problem = some (polling_failed errno); over = true },
      rw (poll_round, is, broken) refl,
      record {
        frames_same = refl;
        connected_same = refl;
        time_same = refl;
        over_has_cause = λ _. inl refl;
        late_has_problem = λ n. cc;
      },
    )
  ]
]

-- A round stops the loop, or the loop has a reason of its own.
abbrev pub Ended : List Round → Streaming → Type 0
Ended rounds t = (any (λ r. r.stop) rounds ≡ true) ⊎ HasCause t

-- The head of the loop.
head_ends :
    (r : Round) (rounds : List Round) (s : Streaming)
    → r.stop || is_given s.problem ≡ true
    → Ended (r ∷ rounds) s
unfolding any
head_ends r rounds s stops = elim (Bool-cases r.stop) [
  | inl asked ↦ inl (ground arith)
  | inr not_asked ↦ inr (inl (ground arith))
]

later : (r : Round) (rounds : List Round) (t : Streaming) → Ended rounds t → Ended (r ∷ rounds) t
unfolding any
later r rounds t (inl asked) = inl (ground arith)
later r rounds t (inr cause) = inr cause

-- From any state of the loop on: when FFmpeg gives no bytes, and the clock is found past the deadline in
-- some round, 15 seconds after the last frame or 20 after the start when there was none, the loop has
-- ended by the next round, without a further frame; it was asked to stop, or there is an error to
-- report, or the child has exited.
pub poll_loop-ends :
    (started : ℕ) (quiet : List Round) (late next : Round) (rest : List Round) (s : Streaming)
    → All IsQuiet quiet
    → IsQuiet late
    → s.over ≡ false
    → deadline started s < late.now
    → (t : Streaming) × (poll_loop started (quiet ++ (late ∷ next ∷ rest)) s ≡ some t)
      × (t.frames ≡ s.frames)
      × Ended (quiet ++ (late ∷ next ∷ rest)) t
unfolding poll_loop
poll_loop-ends started [] late next rest s all_quiet late_quiet going past =
    elim (Bool-cases (late.stop || is_given s.problem)) [
      | inl stops ↦ (s, rw (poll_loop, stops) refl, refl, head_ends late (next ∷ rest) s stops)
      | inr goes ↦
          let (t, is, round) = poll_round-IsRound started late s late_quiet going in
          elim (Bool-cases t.over) [
            | inl left ↦ (
              t,
              rw (poll_loop, goes, is, left) refl,
              round.frames_same,
              inr (round.over_has_cause left),
            )
            | inr on ↦
                let problem = round.late_has_problem on past in
                let stops : next.stop || is_given t.problem ≡ true = ground arith in
                (
                  t,
                  rw (poll_loop, goes, is, on) (rw (poll_loop, stops) refl),
                  round.frames_same,
                  inr (inl problem),
                )
          ]
    ]
poll_loop-ends started (r ∷ quiet) late next rest s all_quiet late_quiet going past =
    elim (Bool-cases (r.stop || is_given s.problem)) [
      | inl stops ↦
          (s, rw (poll_loop, stops) refl, refl, head_ends r (quiet ++ (late ∷ next ∷ rest)) s stops)
      | inr goes ↦
          let (t, is, round) = poll_round-IsRound started r s all_quiet.0 going in
          elim (Bool-cases t.over) [
            | inl left ↦ (
              t,
              rw (poll_loop, goes, is, left) refl,
              round.frames_same,
              inr (round.over_has_cause left),
            )
            | inr on ↦
                let same_deadline : deadline started t ≡ deadline started s =
                  rw (round.connected_same, round.time_same) refl in
                let (u, ends, frames, cause) =
                  poll_loop-ends started quiet late next rest t all_quiet.1 late_quiet on
                    (omega (arith, same_deadline, past)) in
                (
                  u,
                  rw (poll_loop, goes, is, on) ends,
                  frames ∙ round.frames_same,
                  later r (quiet ++ (late ∷ next ∷ rest)) u cause,
                )
          ]
    ]
