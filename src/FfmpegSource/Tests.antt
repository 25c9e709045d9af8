-- ===== src/FfmpegSource/Tests.antt =====
-- Runs of daemon/src/ffmpeg_source.cpp on scripts of answers, with the theorems at them.
use vcames.Common.{
  ℕ, ◌<◌, ◌≡◌, refl, true, false, none, some, List, [], ◌∷◌, ◌++◌, arith, replicate, pos, bytes,
  find,
}
use vcames.Mjpeg.{feed, append, new_parser, soi_marker, eoi_marker}
use vcames.Stream.{StreamSourceSpec}
use vcames.V4l2Sink.{gives}
use vcames.FfmpegSource.{
  Process, sigterm, sigkill, WaitAnswer, reaped, pending, Read, chunk, Round, Streaming, poll_loop,
  terminate_child, exit_code, chunks_of,
}
use vcames.FfmpegSource.Run.{Answers, Command, Streamed, stream, first_streaming}
use vcames.FfmpegSource.Released.{IsReleased, Distinct, stream-IsReleased}
use vcames.FfmpegSource.Timeout.{Ended, poll_loop-ends}

abbrev before : Process
before = record { open_files = 3 ∷ 4 ∷ []; children = []; signals = [] }

abbrev round : List Read → WaitAnswer → ℕ → Round
round reads waited now = record {
  stop = false;
  polled = gives (false, true);
  diagnostic_reads = [];
  output_reads = reads;
  frame_time = now;
  waited = waited;
  now = now;
}

-- A frame, and then the child exits with code 1.
abbrev answers : Answers
answers = record {
  is_executable = true;
  output_pipe = gives (5, 6);
  diagnostic_pipe = gives (7, 8);
  actions = 0 ∷ 0 ∷ 0 ∷ 0 ∷ 0 ∷ [];
  attributes = 0 ∷ 0 ∷ 0 ∷ 0 ∷ 0 ∷ [];
  spawned = λ _. gives 99;
  output_mode = none;
  diagnostic_mode = none;
  started = 1000;
  rounds =
      round (chunk (0xff ∷ 0xd8 ∷ 7 ∷ 0xff ∷ []) ∷ chunk (0xd9 ∷ []) ∷ []) pending 2000
      ∷ round [] (reaped 256) 3000
      ∷ [];
  last_diagnostics = chunk (b'!' ∷ []) ∷ [];
  terminated = [];
  stop_at_end = false;
}

spec : StreamSourceSpec
spec = record { scheme = bytes "http"; label = bytes "HTTP"; rtsp_transport = false }

abbrev result : Streamed
result = record {
  process = before;
  returned = false;
  error = some (exit_code 1);
  frames = (0xff ∷ 0xd8 ∷ 7 ∷ 0xff ∷ 0xd9 ∷ []) ∷ [];
  diagnostic = b'!' ∷ [];
}

runs : stream (b'/' ∷ []) (bytes "http://a/b") (pos 30) spec answers before ≡ some result
unfolding stream feed append new_parser find soi_marker eoi_marker
runs = refl

-- A child that ignores SIGTERM is killed.
killed :
    terminate_child 99
      (replicate 22 pending ++ reaped 9 ∷ [])
      (record { open_files = []; children = 99 ∷ []; signals = [] })
    ≡ some (record { open_files = []; children = []; signals = (sigkill, 99) ∷ (sigterm, 99) ∷ [] })
unfolding terminate_child
killed = refl

distinct : Distinct answers.output_pipe answers.diagnostic_pipe
distinct = (ground arith, ground arith, ground arith)

positive : (c : Command) (child : ℕ) → answers.spawned c ≡ gives child → 0 < child
positive c child e = let same : 99 ≡ child = cc e in rw (← same) (omega arith)

stream-IsReleased_example : IsReleased before result
stream-IsReleased_example =
    stream-IsReleased (b'/' ∷ []) (bytes "http://a/b") (pos 30) spec answers before result distinct
      positive runs

poll_loop-ends_example :
    (t : Streaming) × (poll_loop 1000
        (round [] pending 2000 ∷ round [] pending 21001 ∷ round [] pending 21250 ∷ [])
        (first_streaming 1000)
      ≡ some t)
    × (t.frames ≡ [])
    × Ended (round [] pending 2000 ∷ round [] pending 21001 ∷ round [] pending 21250 ∷ []) t
unfolding first_streaming chunks_of
poll_loop-ends_example =
    poll_loop-ends 1000 (round [] pending 2000 ∷ []) (round [] pending 21001)
      (round [] pending 21250) [] (first_streaming 1000) (refl, tt) refl refl (omega arith)
