-- ===== src/Stream.antt =====
-- daemon/src/stream_source.cpp and daemon/include/vcames/stream_source.h: which network URLs the
-- daemon accepts, and the command line that it hands to FFmpeg for one.
pub mod Url
pub mod Ffmpeg
mod Tests
use vcames.Common.{
  ℕ, suc, ◌+◌, ◌≡◌, refl, Bool, true, false, not, ◌&&◌, ◌||◌, List, [], ◌∷◌, ◌++◌, map, Option,
  none, some, String, Bytes, bytes, equal, find, find_index, ltb, leb, ◌==◌, if◌then◌else◌, length,
  is_empty, take, drop, any, all,
}
use vcames.Failure.{
  Error, spec_missing, bad_url, no_authority, unsafe_scheme, malformed_scheme, bad_authority,
  Result, ok, err, ◌>>=◌, ◌>>◌, fail_if,
}

pub record StreamSourceSpec : Type 0 where
  pub scheme : Bytes
  pub label : Bytes
  pub rtsp_transport : Bool

abbrev pub max_url_bytes : ℕ
max_url_bytes = 4096

-- `kSchemes`: the accepted schemes with the label that the status shows.
unfoldable pub schemes : List (String × String)
schemes =
    ("http", "HTTP/HLS/DASH/MJPEG")
    ∷ ("https", "HTTPS/HLS/DASH/MJPEG")
    ∷ ("rtmp", "RTMP")
    ∷ ("rtmps", "RTMPS")
    ∷ ("rtmpe", "RTMPE")
    ∷ ("rtmpt", "RTMPT")
    ∷ ("rtmpte", "RTMPTE")
    ∷ ("rtmpts", "RTMPTS")
    ∷ ("rtsp", "RTSP")
    ∷ ("rtsps", "RTSPS")
    ∷ ("srt", "SRT")
    ∷ ("rist", "RIST")
    ∷ ("rtp", "RTP")
    ∷ ("srtp", "SRTP")
    ∷ ("udp", "UDP MPEG-TS/RTP")
    ∷ ("tcp", "TCP MPEG-TS")
    ∷ ("mmsh", "MMSH")
    ∷ ("mmst", "MMST")
    ∷ []

-- `kSchemes.find`, with the label of the entry that is found.
unfoldable pub find_scheme : Bytes → List (String × String) → Option Bytes
find_scheme s [] = none
find_scheme s ((k, v) ∷ t) = if equal s (bytes k) then some (bytes v) else find_scheme s t

abbrev pub is_control : ℕ → Bool
is_control c = ltb c 0x20 || c == 0x7f

unfoldable pub has_control_character : Bytes → Bool
has_control_character = any is_control

-- The lambda of `std::transform`.
unfoldable pub to_lower : ℕ → ℕ
to_lower c = if leb b'A' c && leb c b'Z' then c + 32 else c

-- The lambda of `std::all_of`.
abbrev pub is_scheme_byte : ℕ → Bool
is_scheme_byte c = leb b'a' c && leb c b'z' || leb b'0' c && leb c b'9'

-- `find_first_of("/?#", …)` stops at one of these.
abbrev pub ends_authority : ℕ → Bool
ends_authority c = c == b'/' || c == b'?' || c == b'#'

-- The authority, from the text behind `://`.
unfoldable pub authority_of : Bytes → Bytes
authority_of rest = elim (find_index ends_authority rest) [ none ↦ rest | some n ↦ take n rest ]

unfoldable pub separator : Bytes
separator = b':' ∷ b'/' ∷ b'/' ∷ []

-- The checks from the lookup of the scheme on.
unfoldable pub parse_authority : Bytes → Bytes → Bytes → Result StreamSourceSpec
parse_authority scheme label authority = do
  fail_if (not (all is_scheme_byte scheme)) malformed_scheme
  fail_if (is_empty authority || ltb 1024 (length authority)) bad_authority
  ok (record {
    scheme = scheme;
    label = label;
    rtsp_transport = equal scheme (bytes "rtsp") || equal scheme (bytes "rtsps");
  })

unfoldable pub parse_scheme : Bytes → Bytes → Result StreamSourceSpec
unfolding parse_authority
parse_scheme scheme rest = elim (find_scheme scheme schemes) [
  | none ↦ err unsafe_scheme
  | some label ↦ parse_authority scheme label (authority_of rest)
]

-- The checks from the place of the separator on.
unfoldable pub parse_at : Bytes → Option ℕ → Result StreamSourceSpec
unfolding parse_scheme
parse_at url none = err no_authority
parse_at url (some at) = do
  fail_if (at == 0 || leb (length url) (at + 3)) no_authority
  parse_scheme (map to_lower (take at url)) (drop (at + 3) url)

-- `ParseStreamSourceUrl`; the flag is `spec != nullptr`.
unfoldable pub parse_stream_source_url : Bool → Bytes → Result StreamSourceSpec
unfolding parse_at
parse_stream_source_url given url = do
  fail_if (not given) spec_missing
  fail_if (is_empty url || ltb max_url_bytes (length url) || has_control_character url) bad_url
  parse_at url (find separator url)
