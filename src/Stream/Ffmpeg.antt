-- ===== src/Stream/Ffmpeg.antt =====
-- `FfmpegProtocolWhitelist` and `BuildFfmpegArguments` of daemon/src/stream_source.cpp.
pub mod Arguments
use vcames.Common.{
  ℕ, zero, suc, ◌+◌, ◌-◌, ◌*◌, ◌/◌, ◌%◌, ◌^◌, ◌≤◌, ◌<◌, min, String, ◌≡◌, refl, sym, ap, subst, ◌∙◌,
  ◌≢◌, ◌↔◌, ◌⊎◌, inl, inr, Bool, true, false, not, ◌&&◌, ◌||◌, Option, none, some, List, [], ◌∷◌,
  ◌++◌, map, append-nil, append_assoc, arith, ltb, leb, ◌==◌, if◌then◌else◌, ltb→lt, lt→ltb, leb→le,
  le→leb, ==_iff, Bool-cases, Option-cases, length, is_empty, get_elem?, take, drop, replicate, any,
  all, All, length-append, take-append-drop, length-take, length-drop, take-append, drop-append,
  drop-drop, length-replicate, ℤ, pos, negsuc, ==ℤ_iff, ◌==ℤ◌, to_decimal, to_string, Bytes,
  equal_iff, equal_self, bytes, equal, starts_with, find, find_index,
}
use vcames.Stream.{StreamSourceSpec}

unfoldable pub ffmpeg_protocol_whitelist : Bytes
ffmpeg_protocol_whitelist =
    bytes "http,https,httpproxy,tcp,tls,crypto,ffrtmpcrypt,ffrtmphttp,"
    ++ (bytes "rtmp,rtmps,rtmpe,rtmpt,"
        ++ bytes "rtmpte,rtmpts,rtsp,rtsps,rtp,srtp,udp,srt,rist,mmsh,mmst")

unfoldable pub words : List String → List Bytes
words [] = []
words (w ∷ ws) = bytes w ∷ words ws

-- `-user_agent` to `-reconnect_delay_max`, for HTTP and HTTPS.
unfoldable pub http_arguments : List Bytes
unfolding words
http_arguments = words (
    "-user_agent" ∷ "VCamES/3.2" ∷ "-reconnect" ∷ "1" ∷ "-reconnect_at_eof" ∷ "1"
    ∷ "-reconnect_streamed" ∷ "1" ∷ "-reconnect_on_network_error" ∷ "1" ∷ "-reconnect_on_http_error"
    ∷ "4xx,5xx" ∷ "-reconnect_delay_max" ∷ "10" ∷ [])

unfoldable pub common_arguments : Bytes → List Bytes
common_arguments ffmpeg_path =
    ffmpeg_path
      ∷ words ("-hide_banner" ∷ "-nostdin" ∷ "-loglevel" ∷ "error" ∷ "-protocol_whitelist" ∷ [])
    ++ (ffmpeg_protocol_whitelist
        ∷ words (
            "-rw_timeout" ∷ "15000000" ∷ "-fflags" ∷ "nobuffer" ∷ "-flags" ∷ "low_delay"
            ∷ "-probesize" ∷ "1048576" ∷ "-analyzeduration" ∷ "2000000" ∷ []))

-- The filter chain; `fps` is written by `std::to_string`.
unfoldable pub video_filter : Bytes → Bytes
video_filter fps =
    bytes "fps="
    ++ (fps
        ++ bytes
            ",scale=1280:720:force_original_aspect_ratio=decrease,pad=1280:720:(ow-iw)/2:(oh-ih)/2:black")

unfoldable pub output_arguments : Bytes → Bytes → List Bytes
output_arguments url fps =
    words ("-thread_queue_size" ∷ "8" ∷ "-i" ∷ [])
    ++ (url ∷ words ("-map" ∷ "0:v:0" ∷ "-an" ∷ "-sn" ∷ "-dn" ∷ "-vf" ∷ [])
        ++ (video_filter fps
            ∷ words (
                "-threads" ∷ "2" ∷ "-c:v" ∷ "mjpeg" ∷ "-q:v" ∷ "3" ∷ "-f" ∷ "image2pipe" ∷ "pipe:1"
                ∷ [])))

unfoldable pub build_ffmpeg_arguments : Bytes → Bytes → ℤ → StreamSourceSpec → List Bytes
build_ffmpeg_arguments ffmpeg_path url fps spec =
    common_arguments ffmpeg_path
    ++ ((if equal spec.scheme (bytes "http") || equal spec.scheme (bytes "https")
          then http_arguments
          else [])
        ++ ((if spec.rtsp_transport then words ("-rtsp_transport" ∷ "tcp" ∷ []) else [])
            ++ output_arguments url (to_string fps)))
