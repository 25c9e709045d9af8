-- ===== src/FfmpegSource/Ended.antt =====
-- The child's part of `FfmpegSource::Stream` of daemon/src/ffmpeg_source.cpp, up to its end.
use vcames.Common.{
  ℕ, ◌≤◌, ◌<◌, ◌≡◌, refl, inl, inr, Bool, true, false, none, some, List, [], arith, Option-cases,
  length,
}
use vcames.V4l2Sink.{without}
use vcames.FfmpegSource.{
  bad_pipe_mode, Process, forget, WaitAnswer, terminate_child, max_diagnostic_bytes,
  drain_diagnostic, FfmpegError, Streaming, poll_loop,
}
use vcames.FfmpegSource.Diagnostic.{drain_diagnostic-le, poll_loop-IsShort}
use vcames.FfmpegSource.Run.{
  Answers, Streamed, run_error, streamed, end_child, finish_run, first_streaming, give_up,
  run_child,
}
use vcames.FfmpegSource.Child.{IsWaited, terminate_child-IsWaited}

-- What the child's part of a run leaves, when the process has one child more.
pub record IsEnded (child : ℕ) (before : Process) (r : Streamed) : Type 0 where
  pub kept_files : r.process.open_files ≡ before.open_files
  pub child_gone : r.process.children ≡ without child before.children
  pub is_short : length r.diagnostic ≤ max_diagnostic_bytes
  pub no_error : r.returned ≡ true → r.error ≡ none
  pub an_error : r.returned ≡ false → (why : FfmpegError) × (r.error ≡ some why)

give_up-IsEnded :
    (child : ℕ) (answers : List WaitAnswer) (why : FfmpegError) (p : Process) (r : Streamed)
    → 0 < child
    → give_up child answers why p ≡ some r
    → IsEnded child p r
give_up-IsEnded child answers why p r above h =
    elim (Option-cases (terminate_child child answers p)) [
      | inl missing ↦ cc (rw (give_up, missing) at h)
      | inr (q, is) ↦
          let w = terminate_child-IsWaited child answers p q above is in
          let same : _ ≡ some r = rw (give_up, is) at h in
          let is_r : record {
            process = q;
            returned = false;
            error = some why;
            frames = [];
            diagnostic = [];
          }
              ≡ r =
            cc same in
          rw (← is_r) (record {
            kept_files = w.same_files;
            child_gone = w.gone;
            is_short = omega arith;
            no_error = λ t. cc;
            an_error = λ _. (why, refl);
          })
    ]

end_child-IsWaited :
    (exited : Bool) (child : ℕ) (answers : List WaitAnswer) (p q : Process)
    → 0 < child
    → end_child exited child answers p ≡ some q
    → IsWaited child p q
unfolding end_child forget
end_child-IsWaited true child answers p q above h =
    let e : forget child p ≡ q = cc in rw (← e) (record { same_files = refl; gone = refl })
end_child-IsWaited false child answers p q above h =
    terminate_child-IsWaited child answers p q above h

streamed-IsEnded :
    (stop : Bool) (child : ℕ) (s : Streaming) (p q : Process)
    → length s.diagnostic ≤ max_diagnostic_bytes
    → IsWaited child p q
    → IsEnded child p (streamed stop s q)
unfolding streamed
streamed-IsEnded true child s p q short w = record {
  kept_files = w.same_files;
  child_gone = w.gone;
  is_short = short;
  no_error = λ _. refl;
  an_error = λ t. cc;
}
streamed-IsEnded false child s p q short w = record {
  kept_files = w.same_files;
  child_gone = w.gone;
  is_short = short;
  no_error = λ t. cc;
  an_error = λ _. (run_error s, refl);
}

finish_run-IsEnded :
    (answers : Answers) (child : ℕ) (s : Streaming) (p : Process) (r : Streamed)
    → 0 < child
    → length s.diagnostic ≤ max_diagnostic_bytes
    → finish_run answers child s p ≡ some r
    → IsEnded child p r
unfolding finish_run
finish_run-IsEnded answers child s p r above short h =
    let last = record s { diagnostic = drain_diagnostic answers.last_diagnostics s.diagnostic } in
    elim (Option-cases (end_child s.child_exited child answers.terminated p)) [
      | inl missing ↦ cc (rw (finish_run, missing) at h)
      | inr (q, is) ↦
          let same : streamed answers.stop_at_end last q ≡ r = cc (rw (finish_run, is) at h) in
          rw (← same) (
            streamed-IsEnded answers.stop_at_end child last p q
              (drain_diagnostic-le answers.last_diagnostics s.diagnostic short)
              (end_child-IsWaited s.child_exited child answers.terminated p q above is))
    ]

pub run_child-IsEnded :
    (answers : Answers) (child : ℕ) (p : Process) (r : Streamed)
    → 0 < child
    → run_child answers child p ≡ some r
    → IsEnded child p r
unfolding run_child first_streaming
run_child-IsEnded answers child p r above h = elim (Option-cases answers.output_mode) [
  | inr (errno, is) ↦
      give_up-IsEnded child answers.terminated (bad_pipe_mode errno) p r above
        (rw (run_child, is) at h)
  | inl ok ↦ elim (Option-cases answers.diagnostic_mode) [
    | inr (errno, is) ↦
        give_up-IsEnded child answers.terminated (bad_pipe_mode errno) p r above
          (rw (run_child, ok, is) at h)
    | inl fine ↦
        elim (Option-cases
          (poll_loop answers.started answers.rounds (first_streaming answers.started))) [
            | inl missing ↦ cc (rw (run_child, ok, fine, missing) at h)
            | inr (s, is) ↦
                finish_run-IsEnded answers child s p r above
                  (poll_loop-IsShort answers.started answers.rounds
                    (first_streaming answers.started) s (omega arith) is)
                  (rw (run_child, ok, fine, is) at h)
          ]
  ]
]
