-- ===== src/Engine/Status.antt =====
-- `Engine::StatusJson` and `Engine::WaitForFirstFrameWritten` of daemon/src/engine.cpp.
use vcames.Common.{
  ◌+◌, ◌/◌, String, Bool, Option, none, some, [], ◌∷◌, ◌++◌, ltb, if◌then◌else◌, ℤ, pos, negsuc,
  ◌==ℤ◌, ◌-◌, leb, to_decimal, to_string, Bytes, bytes,
}
use vcames.Config.Command.{negate}
use vcames.Config.Json.{json_escape}
use vcames.Engine.{RuntimeStatus, Problem}

abbrev truth : Bool → Bytes
truth t = if t then bytes "true" else bytes "false"

-- A member of the object, from the comma before it on.
abbrev member : String → Bytes → Bytes
member name value = bytes ",\"" ++ (bytes name ++ (bytes "\":" ++ value))

abbrev quoted : Bytes → Bytes
quoted value = b'"' ∷ (value ++ bytes "\"")

-- `now - last`
unfoldable pub elapsed : ℤ → ℤ → ℤ
elapsed (pos now) (pos last) = if leb last now then pos (now - last) else negsuc (last - now - 1)
elapsed (pos now) (negsuc last) = pos (now + last + 1)
elapsed (negsuc now) (pos last) = negsuc (now + last)
elapsed (negsuc now) (negsuc last) =
    if leb now last then pos (last - now) else negsuc (now - last - 1)

-- `duration_cast` of nanoseconds to milliseconds rounds towards 0.
unfoldable pub milliseconds : ℤ → ℤ
unfolding negate
milliseconds (pos n) = pos (n / 1000000)
milliseconds (negsuc n) = negate ((n + 1) / 1000000)

-- The age of the last frame, from two readings of the steady clock in nanoseconds; a reading of 0 stands
-- for no frame.
unfoldable pub age_ms : ℤ → ℤ → ℤ
unfolding milliseconds elapsed ◌==ℤ◌
age_ms now last_frame_time =
    if last_frame_time ==ℤ pos 0 then negsuc 0 else milliseconds (elapsed now last_frame_time)

-- The texts that `status_.error` holds.
module _ (problem_text : Problem → Bytes) where
  unfoldable pub error_text : Option Problem → Bytes
  error_text none = []
  error_text (some problem) = problem_text problem

  -- `Engine::StatusJson`
  unfoldable pub status_json : ℤ → RuntimeStatus → Bytes
  unfolding error_text age_ms
  status_json now s =
      bytes "{\"running\":"
      ++ (truth s.running
          ++ (member "source" (quoted (json_escape s.source_label))
              ++ (member "connected" (truth s.source_connected)
                  ++ (member "camera_ready" (truth s.sink_open)
                      ++ (member "replacement_scope" (quoted (bytes "global-front-back"))
                          ++ (member "replacement_verification"
                                (quoted (bytes "pixel5-legacy-provider-takeover"))
                              ++ (member "camera_ids" (bytes "[\"0\",\"1\"]")
                                  ++ (member "transport"
                                        (quoted (bytes "ffmpeg-to-v4l2-to-global-provider"))
                                      ++ (member "frame_format"
                                            (quoted (json_escape s.frame_format))
                                          ++ (member "received" (to_decimal s.frames_received)
                                              ++ (member "written" (to_decimal s.frames_written)
                                                  ++ (member "dropped" (to_decimal s.frames_dropped)
                                                      ++ (member "source_size" (
                                                            quoted (
                                                            to_string s.source_width
                                                            ++ (b'x' ∷ to_string s.source_height)))
                                                          ++ (member "age_ms" (
                                                            to_string
                                                            (age_ms now s.last_frame_time))
                                                            ++ (member "error" (
                                                            quoted
                                                            (json_escape (error_text s.error)))
                                                            ++ bytes "}")))))))))))))))

-- Why the first frame was not written: what the status says, or no reason.
pub data NoFrame : Type 0 where
  not_in_time : NoFrame
  stopped_by : Problem → NoFrame

-- `Engine::WaitForFirstFrameWritten`, from the status when the wait ends.
unfoldable pub wait_for_first_frame_written : RuntimeStatus → Option NoFrame
wait_for_first_frame_written s =
    if ltb 0 s.frames_written
    then none
    else elim s.error [ none ↦ some not_in_time | some problem ↦ some (stopped_by problem) ]
