-- ===== src/FfmpegSource/Released.antt =====
-- `FfmpegSource::Stream` of daemon/src/ffmpeg_source.cpp: what a run leaves of its descriptors and its
-- child.
use vcames.Common.{
  ℕ, zero, suc, ◌≤◌, ◌<◌, ◌≡◌, refl, sym, ap, ◌∙◌, ◌≢◌, inl, inr, true, false, not, ◌||◌, Option,
  none, some, [], ◌∷◌, arith, Bool-cases, length, ℤ, Bytes,
}
use vcames.Stream.{StreamSourceSpec}
use vcames.V4l2Sink.{Final, fails_with, gives}
use vcames.V4l2Sink.Open.{Final-cases, without-head}
use vcames.FfmpegSource.{
  not_started, no_pipes, not_executable, Process, reset, max_diagnostic_bytes, FfmpegError,
}
use vcames.FfmpegSource.Run.{
  Answers, Command, Streamed, fails, close_all, closing, spawn_error, run_child, spawn_result,
  run_with_pipes, opens_pipe, open_pipes, stream, is_not_absolute,
}
use vcames.FfmpegSource.Child.{without-tail}
use vcames.FfmpegSource.Ended.{run_child-IsEnded}

-- What a run leaves behind: the descriptors and the children that there were, a short diagnostic, and an
-- error exactly if it was not asked to stop.
pub record IsReleased (before : Process) (r : Streamed) : Type 0 where
  pub same_files : r.process.open_files ≡ before.open_files
  pub same_children : r.process.children ≡ before.children
  pub short : length r.diagnostic ≤ max_diagnostic_bytes
  pub without_error : r.returned ≡ true → r.error ≡ none
  pub with_error : r.returned ≡ false → (why : FfmpegError) × (r.error ≡ some why)

-- The descriptors of a pipe are not in use, those of the pipe before it among them.
abbrev pub Distinct : Final (ℕ × ℕ) → Final (ℕ × ℕ) → Type 0
Distinct (gives (r, w)) (gives (dr, dw)) = (r ≢ w) × (dr ≢ w) × (dw ≢ w)
Distinct (gives (r, w)) (fails_with _) = r ≢ w
Distinct (fails_with _) _ = Unit

spawn_positive :
    (answers : Answers) (command : Command) (child : ℕ)
    → ((c : Command) (child : ℕ) → answers.spawned c ≡ gives child → 0 < child)
    → spawn_result answers command ≡ gives child
    → 0 < child
unfolding spawn_result
spawn_positive answers command child positive h =
    by_error (spawn_error answers.actions answers.attributes) h
  where
    by_error :
        (n : ℕ)
        → elim n [ zero ↦ answers.spawned command | suc n ↦ fails_with (suc n) ] ≡ gives child
        → 0 < child
    by_error zero e = positive command child e
    by_error (suc n) e = cc

closed_by :
    (closes : Process → Process) (o : Option Streamed) (r : Streamed)
    → closing closes o ≡ some r
    → (inner : Streamed) × (o ≡ some inner) × (r ≡ record inner { process = closes inner.process })
closed_by closes none r h = cc
closed_by closes (some inner) r h = (inner, refl, cc)

module _ (before : Process) (output_read output_write diagnostic_read diagnostic_write : ℕ) where
  abbrev with_pipes : Process
  with_pipes =
      opens_pipe (diagnostic_read, diagnostic_write) (opens_pipe (output_read, output_write) before)

  abbrev without_writers : ℕ → Process
  without_writers child = record before {
    open_files = diagnostic_read ∷ output_read ∷ before.open_files;
    children = child ∷ before.children;
  }

  abbrev parent : ℕ → Process
  parent child =
      reset (some diagnostic_write)
        (reset (some output_write) (record with_pipes { children = child ∷ before.children }))

  -- The parent's writing ends are closed.
  writers_closed :
      (child : ℕ)
      → diagnostic_read ≢ output_write
      → diagnostic_write ≢ output_write
      → reset
          (some diagnostic_write)
          (reset (some output_write) (record with_pipes { children = child ∷ before.children }))
        ≡ without_writers child
  unfolding reset
  writers_closed child apart apart' =
      let files = output_write ∷ output_read ∷ before.open_files in
      rw
        (
          without-tail output_write diagnostic_write (diagnostic_read ∷ files) apart',
          without-tail output_write diagnostic_read files apart,
          without-head output_write (output_read ∷ before.open_files),
          without-head diagnostic_write (diagnostic_read ∷ output_read ∷ before.open_files),
        )
        refl

  all_closed :
      close_all
        (some output_read)
        (some output_write)
        (some diagnostic_read)
        (some diagnostic_write)
        with_pipes
      ≡ before
  unfolding close_all reset
  all_closed =
      let three = diagnostic_read ∷ output_write ∷ output_read ∷ before.open_files in
      rw
        (
          without-head diagnostic_write three,
          without-head diagnostic_read (output_write ∷ output_read ∷ before.open_files),
          without-head output_write (output_read ∷ before.open_files),
          without-head output_read before.open_files,
        )
        refl

  readers_closed :
      (p : Process)
      → p.open_files ≡ diagnostic_read ∷ output_read ∷ before.open_files
      → (close_all (some output_read) none (some diagnostic_read) none p).open_files
        ≡ before.open_files
  unfolding close_all reset
  readers_closed p e =
      rw (e, without-head diagnostic_read (output_read ∷ before.open_files))
        (without-head output_read before.open_files)

  readers_keep :
      (p : Process)
      → (close_all (some output_read) none (some diagnostic_read) none p).children ≡ p.children
  unfolding close_all reset
  readers_keep p = refl

  abbrev all_close : Process → Process
  all_close =
      close_all (some output_read) (some output_write) (some diagnostic_read)
        (some diagnostic_write)

  abbrev readers_close : Process → Process
  readers_close = close_all (some output_read) none (some diagnostic_read) none

  abbrev unstarted : ℕ → Streamed
  unstarted errno = record {
    process = with_pipes;
    returned = false;
    error = some (not_started errno);
    frames = [];
    diagnostic = [];
  }

  run_with_pipes-IsReleased :
      (answers : Answers) (command : Command) (r : Streamed)
      → ((c : Command) (child : ℕ) → answers.spawned c ≡ gives child → 0 < child)
      → diagnostic_read ≢ output_write
      → diagnostic_write ≢ output_write
      → run_with_pipes answers command
          (output_read, output_write)
          (diagnostic_read, diagnostic_write)
          with_pipes
        ≡ some r
      → IsReleased before r
  unfolding run_with_pipes
  run_with_pipes-IsReleased answers command r positive apart apart' h =
      elim (Final-cases (spawn_result answers command)) [
        | inl (errno, is) ↦
            let (inner, is_inner, is_r) =
              closed_by all_close (fails (not_started errno) with_pipes) r
                (rw (run_with_pipes, is) at h) in
            let same : unstarted errno ≡ inner = cc is_inner in
            rw (is_r, ← same)
              (record {
                same_files = ap (λ p. p.open_files) all_closed;
                same_children = ap (λ p. p.children) all_closed;
                short = omega arith;
                without_error = λ t. cc;
                with_error = λ _. (not_started errno, refl);
              })
        | inr (child, is) ↦
            let (inner, is_inner, is_r) =
              closed_by readers_close (run_child answers child (parent child)) r
                (rw (run_with_pipes, is) at h) in
            let ended =
              run_child-IsEnded answers child (without_writers child) inner
                (spawn_positive answers command child positive is)
                (rw (writers_closed child apart apart') at is_inner) in
            rw is_r (record {
              same_files = readers_closed inner.process ended.kept_files;
              same_children =
                  readers_keep inner.process
                  ∙ ended.child_gone
                  ∙ without-head child before.children;
              short = ended.is_short;
              without_error = ended.no_error;
              with_error = ended.an_error;
            })
      ]

unchanged :
    (before : Process) (r : Streamed) (why : FfmpegError)
    → fails why before ≡ some r
    → IsReleased before r
unchanged before r why h =
    let same : record {
      process = before;
      returned = false;
      error = some why;
      frames = [];
      diagnostic = [];
    }
        ≡ r =
      cc h in
    rw (← same) (record {
      same_files = refl;
      same_children = refl;
      short = omega arith;
      without_error = λ t. cc;
      with_error = λ _. (why, refl);
    })

-- The first pipe is closed when the second cannot be had.
pipe_closed :
    (before : Process) (r_end w_end : ℕ)
    → r_end ≢ w_end
    → reset (some w_end) (reset (some r_end) (opens_pipe (r_end, w_end) before)) ≡ before
unfolding reset
pipe_closed before r_end w_end apart =
    rw
      (
        without-tail r_end w_end (r_end ∷ before.open_files) (λ e. apart (sym e)),
        without-head r_end before.open_files,
        without-head w_end before.open_files,
      )
      refl

open_pipes-IsReleased :
    (answers : Answers) (command : Command) (before : Process) (r : Streamed)
    → Distinct answers.output_pipe answers.diagnostic_pipe
    → ((c : Command) (child : ℕ) → answers.spawned c ≡ gives child → 0 < child)
    → open_pipes answers command before ≡ some r
    → IsReleased before r
unfolding open_pipes
open_pipes-IsReleased answers command before r distinct positive h =
    elim (Final-cases answers.output_pipe) [
      | inl (errno, is) ↦ unchanged before r (no_pipes errno) (rw (open_pipes, is) at h)
      | inr ((r_end, w_end), is) ↦ elim (Final-cases answers.diagnostic_pipe) [
        | inl (errno, is') ↦
            let apart : r_end ≢ w_end = rw (is, is') at distinct in
            unchanged before r (no_pipes errno)
              (rw (pipe_closed before r_end w_end apart) at (rw (open_pipes, is, is') at h))
        | inr ((dr, dw), is') ↦
            let (_, apart, apart') : (r_end ≢ w_end) × (dr ≢ w_end) × (dw ≢ w_end) =
              rw (is, is') at distinct in
            run_with_pipes-IsReleased before r_end w_end dr dw answers command r positive apart
              apart' (rw (open_pipes, is, is') at h)
      ]
    ]

-- Whatever the kernel answers: when `Stream` returns, the process has the descriptors and the children that
-- it had, on every path; at most 8 KiB of diagnostics are kept; and there is an error exactly if `Stream`
-- returns false. The kernel gives a pipe descriptors that are not in use, and a child a positive number.
pub stream-IsReleased :
    (ffmpeg_path url : Bytes) (fps : ℤ) (spec : StreamSourceSpec) (answers : Answers)
    (before : Process) (r : Streamed)
    → Distinct answers.output_pipe answers.diagnostic_pipe
    → ((c : Command) (child : ℕ) → answers.spawned c ≡ gives child → 0 < child)
    → stream ffmpeg_path url fps spec answers before ≡ some r
    → IsReleased before r
unfolding stream
stream-IsReleased ffmpeg_path url fps spec answers before r distinct positive h =
    elim (Bool-cases (is_not_absolute ffmpeg_path || not answers.is_executable)) [
      | inl refused ↦ unchanged before r not_executable (rw refused at h)
      | inr fine ↦ open_pipes-IsReleased answers _ before r distinct positive (rw fine at h)
    ]
