-- ===== src/Engine/Session.antt =====
-- A session of daemon/src/engine.cpp: the regions under its mutex that the producers, the source
-- thread, the writer and `Stop` run, in any order.
pub mod Books
pub mod Steps
pub mod Accounting
mod Tests
use vcames.Common.{
  ℕ, zero, suc, ◌+◌, ◌-◌, ◌*◌, ◌/◌, ◌%◌, ◌^◌, ◌≤◌, ◌<◌, min, String, ◌≡◌, refl, sym, ap, subst, ◌∙◌,
  ◌≢◌, ◌↔◌, ◌⊎◌, inl, inr, Bool, true, false, not, ◌&&◌, ◌||◌, Option, none, some, List, [], ◌∷◌,
  ◌++◌, map, append-nil, append_assoc, arith, ltb, leb, ◌==◌, if◌then◌else◌, ltb→lt, lt→ltb, leb→le,
  le→leb, ==_iff, Bool-cases, Option-cases, length, is_empty, get_elem?, take, drop, replicate, any,
  all, All, length-append, take-append-drop, length-take, length-drop, take-append, drop-append,
  drop-drop, length-replicate, ℤ, pos, negsuc, ==ℤ_iff, ◌==ℤ◌, to_decimal, to_string, Bytes,
  equal_iff, equal_self, starts_with-drop, starts_with-append, find-split, find-starts_with,
  find-append, find_index-none, find_index-some, find_index-all, find_index-append, bytes, equal,
  starts_with, find, find_index,
}
use vcames.V4l2Sink.{WriteError, Written, write_frame}
use vcames.Engine.{
  Engine, SourceFrame, Problem, stream_problem, publish_frame, stop_engine, max_frame_bytes,
  push_frame, push_nv21_frame, Pushed,
}
use vcames.Engine.Writer.{
  ImageTransform, Picture, transform_frame, Phase, taking, output, finished, transforming, Writer,
  System, take_frame, store_picture, no_transform, note_output, skipped, at_phase,
}

pub data Event : Type 0 where
  publish : ℤ → SourceFrame → Event
  push_jpeg : ℤ → Bytes → Event
  push_nv21 : ℤ → Bytes → ℤ → ℤ → ℤ → Event
  source_connected source_ended : Event
  stream_failed : Bytes → Event
  wake : ℕ → Event
  transform : Event
  write : ℕ → List Written → Event
  stop : Event

-- The two regions of `SourceLoop`: the callback of a connection, and the end of a stream.
unfoldable pub connect : Engine → Engine
connect e = record e { status = record e.status { source_connected = true; error = none } }

unfoldable pub end_stream : Option Problem → Engine → Engine
end_stream why e = record e { status = record e.status { source_connected = false; error = why } }

abbrev pub on_engine : (Engine → Engine) → System → System
on_engine f s = record s { engine = f s.engine }

-- The writer at its transform.
unfoldable pub transform_step : ImageTransform → Phase → System → System
unfolding transform_frame store_picture
transform_step images (transforming (some frame) generation) s =
    if generation == s.writer.consumed_generation
    then no_transform s
    else elim (transform_frame images frame s.engine.config) [
      | none ↦ s
      | some result ↦ store_picture result generation s
    ]
transform_step images (transforming none generation) s = no_transform s
transform_step images _ s = s

-- The writer at its output.
unfoldable pub write_step : ℕ → List Written → Phase → System → System
unfolding note_output
write_step now answers output s =
    if is_empty s.writer.output_jpeg
    then record s {
      writer = record s.writer {
        phase = taking;
        next_write = now + vcames.Engine.Writer.frame_interval s.engine.config;
      };
    }
    else elim (write_frame answers s.writer.output_jpeg s.engine.sink) [
      | none ↦ s
      | some error ↦ note_output now error s
    ]
write_step now answers _ s = s

unfoldable pub wake_step : ℕ → Phase → System → System
unfolding take_frame
wake_step now taking s = take_frame now s
wake_step now _ s = s

unfoldable pub step : ImageTransform → Event → System → System
unfolding connect end_stream transform_step write_step wake_step
step images (publish now frame) s = on_engine (publish_frame now frame) s
step images (push_jpeg now payload) s = on_engine (λ e. (push_frame now payload e).engine) s
step images (push_nv21 now payload width height time) s =
    on_engine (λ e. (push_nv21_frame now payload width height time e).engine) s
step images source_connected s = on_engine connect s
step images source_ended s = on_engine (end_stream none) s
step images (stream_failed why) s = on_engine (end_stream (some (stream_problem why))) s
step images (wake now) s = wake_step now s.writer.phase s
step images transform s = transform_step images s.writer.phase s
step images (write now answers) s = write_step now answers s.writer.phase s
step images stop s = on_engine stop_engine s

unfoldable pub run : ImageTransform → List Event → System → System
unfolding step
run images [] s = s
run images (event ∷ events) s = run images events (step images event s)
