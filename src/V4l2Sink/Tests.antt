-- ===== src/V4l2Sink/Tests.antt =====
-- A driver that accepts the format, one that is busy, and the theorems at them.
use vcames.Common.{ℕ, ◌≡◌, refl, ◌↔◌, true, none, some, [], ◌∷◌, pos, ◌==ℤ◌}
use vcames.V4l2Sink.{
  V4l2Sink, OpenAnswers, OpenResult, interrupted, failed, given, gives, open_device, write_frame,
  not_writable, took, would_block, ready, write_interrupted, v4l2_pix_fmt_mjpeg, repeated, close,
}
use vcames.V4l2Sink.Open.{IsOpened, open_device-IsOpened}
use vcames.V4l2Sink.Accepts.{Accepts, open_device_iff}
use vcames.V4l2Sink.Write.{Takes, write_frame_iff}

-- 2^1 + 2^24
abbrev answers : OpenAnswers
answers = record {
  opened = gives 7;
  querycap = interrupted ∷ given (record { capabilities = 16777218; device_caps = 0 }) ∷ [];
  s_fmt = given (record { width = 1280; height = 720; pixelformat = v4l2_pix_fmt_mjpeg }) ∷ [];
  s_parm = failed 25 ∷ [];
}

abbrev reader : OpenAnswers
reader = record answers { querycap = given (record { capabilities = 1; device_caps = 0 }) ∷ [] }

-- The sink has a device open from before, and the process two sockets.
abbrev sink : V4l2Sink
sink = record { fd = some 5; open_files = 5 ∷ 3 ∷ 4 ∷ [] }

abbrev opened : OpenResult
opened = record { sink = record { fd = some 7; open_files = 7 ∷ 3 ∷ 4 ∷ [] }; error = none }

opens : open_device (pos 1280) (pos 720) answers sink ≡ some opened
unfolding open_device repeated ◌==ℤ◌ close
opens = refl

refuses :
    open_device (pos 1280) (pos 720) reader sink
    ≡ some
        (record { sink = record { fd = none; open_files = 3 ∷ 4 ∷ [] }; error = some not_writable })
unfolding open_device repeated close
refuses = refl

open_device-IsOpened_example : IsOpened (3 ∷ 4 ∷ []) (gives 7) opened
open_device-IsOpened_example =
    open_device-IsOpened (3 ∷ 4 ∷ []) (pos 1280) (pos 720) answers sink opened
      (record { accounted = refl }) opens

open_device_iff_example :
    ((result : OpenResult) × (open_device (pos 1280) (pos 720) answers sink ≡ some result)
      × (result.error ≡ none))
    ↔ Accepts (pos 1280) (pos 720) answers
open_device_iff_example = open_device_iff (pos 1280) (pos 720) answers sink

write_frame_iff_example :
    (write_frame
        (write_interrupted ∷ would_block (given (ready true) ∷ []) ∷ took 4 ∷ [])
        (1 ∷ 2 ∷ 3 ∷ 4 ∷ [])
        opened.sink
      ≡ some none)
    ↔ (((fd : ℕ) × (opened.sink.fd ≡ some fd))
        × Takes 4 (write_interrupted ∷ would_block (given (ready true) ∷ []) ∷ took 4 ∷ []))
write_frame_iff_example =
    write_frame_iff (write_interrupted ∷ would_block (given (ready true) ∷ []) ∷ took 4 ∷ [])
      (1 ∷ 2 ∷ 3 ∷ 4 ∷ []) opened.sink
