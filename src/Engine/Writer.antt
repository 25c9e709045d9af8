-- ===== src/Engine/Writer.antt =====
-- The writer thread of daemon/src/engine.cpp, one region under the mutex at a time.
use vcames.Common.{
  ℕ, ◌+◌, ◌/◌, ◌⊎◌, inl, inr, Bool, true, false, not, ◌&&◌, Option, none, some, [], ltb,
  if◌then◌else◌, ℤ, pos, negsuc, ◌==ℤ◌, Bytes, bytes,
}
use vcames.Config.{Config}
use vcames.V4l2Sink.{WriteError}
use vcames.Jpeg.{Dimensions, dimensions, read_jpeg_dimensions}
use vcames.Engine.{
  Engine, SourceFrame, jpeg, nv21, transform_problem, sink_problem, add_count, sub_count,
}

-- What the writer calls of daemon/src/image_transform.cpp: a picture, or the text of the error. The
-- arguments are the frame (with its size), the configuration, and a packed picture to encode.
pub record ImageTransform : Type 0 where
  pub transform_jpeg_to_nv21 : Bytes → Config → (Bytes × ℤ × ℤ) ⊎ Bytes
  pub transform_nv21 : Bytes → ℤ → ℤ → Config → Bytes ⊎ Bytes
  pub nv21_to_jpeg : Bytes → ℤ → ℤ → Bytes ⊎ Bytes

-- The picture to write, and the size of its source.
pub record Picture : Type 0 where
  pub output_jpeg : Bytes
  pub source_width : ℤ
  pub source_height : ℤ

abbrev pub same_size : Dimensions → Config → Bool
same_size (dimensions width height) c =
    pos width ==ℤ c.width && pos height ==ℤ c.height && c.rotation ==ℤ pos 0 && not c.mirror
same_size _ c = false

module _ (images : ImageTransform) where
  unfoldable pub encode : Bytes → ℤ → ℤ → Config → Picture ⊎ Bytes
  encode picture width height c = elim (images.nv21_to_jpeg picture c.width c.height) [
    | inl output ↦
        inl (record { output_jpeg = output; source_width = width; source_height = height })
    | inr why ↦ inr why
  ]

  unfoldable pub transform_jpeg : Bytes → Config → Picture ⊎ Bytes
  unfolding encode
  transform_jpeg payload c = elim (images.transform_jpeg_to_nv21 payload c) [
    | inl (picture, width, height) ↦ encode picture width height c
    | inr why ↦ inr why
  ]

  -- A JPEG of the right size is passed on as it is.
  unfoldable pub pass_or_transform : Bytes → Config → Dimensions → Picture ⊎ Bytes
  unfolding transform_jpeg
  pass_or_transform payload c d =
      if same_size d c
      then inl (record { output_jpeg = payload; source_width = c.width; source_height = c.height })
      else transform_jpeg payload c

  unfoldable pub transform_frame : SourceFrame → Config → Option (Picture ⊎ Bytes)
  unfolding pass_or_transform
  transform_frame frame c = elim frame.format [
    | jpeg ↦ elim (read_jpeg_dimensions frame.payload) [
      | none ↦ none
      | some d ↦ some (pass_or_transform frame.payload c d)
    ]
    | nv21 ↦ elim (images.transform_nv21 frame.payload frame.width frame.height c) [
      | inl picture ↦ some (encode picture frame.width frame.height c)
      | inr why ↦ some (inr why)
    ]
  ]

-- Where the writer thread stands: before it takes a frame, between that and the transform, between the
-- transform and the output, or at its end.
pub data Phase : Type 0 where
  taking output finished : Phase
  transforming : Option SourceFrame → ℕ → Phase

pub record Writer : Type 0 where
  pub phase : Phase
  pub output_jpeg : Bytes
  pub consumed_generation : ℕ
  pub next_write : ℕ

pub record System : Type 0 where
  pub engine : Engine
  pub writer : Writer

-- The frames that the writer passes over.
unfoldable pub skipped : ℕ → ℕ → ℕ
skipped generation consumed =
    if ltb (add_count consumed 1) generation then sub_count (sub_count generation consumed) 1 else 0

abbrev pub at_phase : Phase → Writer → Writer
at_phase p w = record w { phase = p }

-- The frames that were passed over count as dropped.
unfoldable pub taken_state : System → System
unfolding skipped
taken_state s = record {
  engine = record s.engine {
    status = record s.engine.status {
      frames_dropped =
          add_count s.engine.status.frames_dropped
            (skipped s.engine.latest_generation s.writer.consumed_generation);
    };
  };
  writer = at_phase (transforming s.engine.latest_frame s.engine.latest_generation) s.writer;
}

-- The waits and the first region of the loop: nothing happens before `next_write`.
unfoldable pub take_frame : ℕ → System → System
unfolding taken_state
take_frame now s =
    if s.engine.stop_requested
    then record s { writer = at_phase finished s.writer }
    else if ltb now s.writer.next_write
    then s
    else taken_state s

-- The region behind the transform.
unfoldable pub store_picture : Picture ⊎ Bytes → ℕ → System → System
store_picture (inl p) generation s = record {
  engine = record s.engine {
    status = record s.engine.status {
      source_width = p.source_width;
      source_height = p.source_height;
      frame_format = bytes "mjpeg";
      error = none;
    };
  };
  writer = record s.writer {
    phase = output;
    output_jpeg = p.output_jpeg;
    consumed_generation = generation;
  };
}
store_picture (inr why) generation s = record {
  engine = record s.engine {
    status = record s.engine.status {
      error = some (transform_problem why);
      frames_dropped = add_count s.engine.status.frames_dropped 1;
    };
  };
  writer = record s.writer { phase = output; output_jpeg = []; consumed_generation = generation };
}

abbrev pub no_transform : System → System
no_transform s = record s { writer = at_phase output s.writer }

-- `frame_interval`, in nanoseconds; `fps` is positive in a valid configuration.
unfoldable pub frame_interval : Config → ℕ
frame_interval c = elim c.fps [ pos n ↦ 1000000000 / n | negsuc n ↦ 0 ]

-- The last region: the picture is written, or the writer waits for one.
unfoldable pub note_output : ℕ → Option WriteError → System → System
unfolding frame_interval
note_output now (some why) s = record {
  engine = record s.engine {
    status = record s.engine.status { sink_open = false; error = some (sink_problem why) };
  };
  writer = record s.writer { phase = taking; next_write = now + frame_interval s.engine.config };
}
note_output now none s =
    let interval = frame_interval s.engine.config in
    record {
      engine = record s.engine {
        status = record s.engine.status {
          sink_open = true;
          frames_written = add_count s.engine.status.frames_written 1;
        };
      };
      writer = record s.writer {
        phase = taking;
        next_write =
            if ltb (s.writer.next_write + interval + interval) now
            then now + interval
            else s.writer.next_write + interval;
      };
    }
