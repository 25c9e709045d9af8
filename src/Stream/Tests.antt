-- ===== src/Stream/Tests.antt =====
-- Runs of the URL checks and of the FFmpeg command line, and the theorems at concrete inputs.
use vcames.Common.{
  ◌≡◌, refl, ◌≢◌, true, some, ◌∷◌, any, all, pos, Bytes, bytes, equal, find, find_index,
}
use vcames.Failure.{ok, err, unsafe_scheme, bad_url, bad_authority, malformed_scheme, no_authority}
use vcames.Stream.{
  StreamSourceSpec, parse_stream_source_url, find_scheme, schemes, has_control_character, to_lower,
  authority_of, separator,
}
use vcames.Stream.Url.{
  IsWellFormed, parse_stream_source_url_iff, parse_stream_source_url-ne-malformed,
}
use vcames.Stream.Ffmpeg.{build_ffmpeg_arguments}
use vcames.Stream.Ffmpeg.Arguments.{argument_of, build_ffmpeg_arguments_safe}

abbrev camera_url : Bytes
camera_url = bytes "RTSP://cam:554/live"

abbrev camera_spec : StreamSourceSpec
camera_spec = record { scheme = bytes "rtsp"; label = bytes "RTSP"; rtsp_transport = true }

parse-camera_url : parse_stream_source_url true camera_url ≡ ok camera_spec
unfolding parse_stream_source_url bytes equal find find_index find_scheme schemes
    has_control_character any all to_lower authority_of separator
parse-camera_url = refl

refused :
    (parse_stream_source_url true (bytes "file:///etc/passwd") ≡ err unsafe_scheme)
    × (parse_stream_source_url true (bytes "http:///x") ≡ err bad_authority)
    × (parse_stream_source_url true (bytes "http://") ≡ err no_authority)
    × (parse_stream_source_url true (bytes "http://a\nb") ≡ err bad_url)
unfolding parse_stream_source_url bytes equal find find_index find_scheme schemes
    has_control_character any all to_lower authority_of separator
refused = (refl, refl, refl, refl)

parse_stream_source_url_iff_example : IsWellFormed camera_url camera_spec
parse_stream_source_url_iff_example =
    (parse_stream_source_url_iff camera_url camera_spec).0 parse-camera_url

parse_stream_source_url-ne-malformed_example :
    parse_stream_source_url true (bytes "h_t:///") ≢ err malformed_scheme
parse_stream_source_url-ne-malformed_example =
    parse_stream_source_url-ne-malformed true (bytes "h_t:///")

build_ffmpeg_arguments_safe_example :
    argument_of
      (bytes "-i")
      (build_ffmpeg_arguments (b'/' ∷ bytes "ffmpeg") camera_url (pos 30) camera_spec)
    ≡ some camera_url
build_ffmpeg_arguments_safe_example =
    (build_ffmpeg_arguments_safe (bytes "ffmpeg") camera_url (pos 30) camera_spec
      parse-camera_url).0
