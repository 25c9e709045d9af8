-- ===== src/Stream/Ffmpeg/Arguments.antt =====
-- The command line of FFmpeg in daemon/src/stream_source.cpp: where the URL stands in it.
use vcames.Common.{
  ℕ, ◌≡◌, refl, inl, inr, Bool, true, false, not, ◌||◌, Option, none, some, List, [], ◌∷◌, ◌==◌,
  if◌then◌else◌, Bool-cases, all, ℤ, Bytes, bytes, equal,
}
use vcames.Failure.{ok}
use vcames.Stream.{StreamSourceSpec, schemes, find_scheme, parse_stream_source_url}
use vcames.Stream.Url.{parse_stream_source_url_iff, find_scheme-table_all}
use vcames.Stream.Ffmpeg.{
  ffmpeg_protocol_whitelist, words, http_arguments, common_arguments, output_arguments,
  build_ffmpeg_arguments,
}

-- The argument behind the first one that is spelled like the flag.
pub argument_of : Bytes → List Bytes → Option Bytes
argument_of flag [] = none
argument_of flag (a ∷ []) = none
argument_of flag (a ∷ b ∷ rest) = if equal a flag then some b else argument_of flag (b ∷ rest)

pub contains : Bytes → List Bytes → Bool
contains w [] = false
contains w (v ∷ vs) = equal v w || contains w vs

-- The parts of a text between commas.
pub split_commas : Bytes → List Bytes
split_commas [] = [] ∷ []
split_commas (c ∷ s) = if c == b',' then [] ∷ split_commas s else onto c (split_commas s)
  where
    onto : ℕ → List Bytes → List Bytes
    onto c [] = (c ∷ []) ∷ []
    onto c (w ∷ ws) = (c ∷ w) ∷ ws

build-argument_of :
    (p url : Bytes) (fps : ℤ) (spec : StreamSourceSpec)
    → (argument_of (bytes "-i") (build_ffmpeg_arguments (b'/' ∷ p) url fps spec) ≡ some url)
      × (argument_of (bytes "-protocol_whitelist") (build_ffmpeg_arguments (b'/' ∷ p) url fps spec)
          ≡ some ffmpeg_protocol_whitelist)
unfolding build_ffmpeg_arguments argument_of common_arguments words bytes equal http_arguments
    output_arguments ffmpeg_protocol_whitelist
build-argument_of p url fps spec = elim (Bool-cases spec.rtsp_transport) [
  | inl e ↦
      elim (Bool-cases (equal spec.scheme (bytes "http") || equal spec.scheme (bytes "https"))) [
        | inl h ↦ rw (e, h) (refl, refl)
        | inr h ↦ rw (e, h) (refl, refl)
      ]
  | inr e ↦
      elim (Bool-cases (equal spec.scheme (bytes "http") || equal spec.scheme (bytes "https"))) [
        | inl h ↦ rw (e, h) (refl, refl)
        | inr h ↦ rw (e, h) (refl, refl)
      ]
]

-- Protocols that would let a URL read local data.
pub local_protocols : List Bytes
unfolding words
local_protocols = words ("file" ∷ "concat" ∷ "concatf" ∷ "data" ∷ "subfile" ∷ "unix" ∷ "pipe" ∷ [])

abbrev allowed : Bytes → Bool
allowed w = contains w (split_commas ffmpeg_protocol_whitelist)

scheme_allowed : (s : Bytes) {label : Bytes} → find_scheme s schemes ≡ some label → allowed s ≡ true
unfolding schemes bytes ffmpeg_protocol_whitelist split_commas contains equal
scheme_allowed s h = find_scheme-table_all allowed s schemes refl h

local_refused : all (λ w. not (allowed w)) local_protocols ≡ true
unfolding bytes ffmpeg_protocol_whitelist split_commas contains equal all local_protocols
local_refused = refl

-- For an accepted URL and an absolute FFmpeg path, the argument behind `-i` is the URL itself, the
-- argument behind `-protocol_whitelist` lists the URL's scheme and no protocol that reads local data.
pub build_ffmpeg_arguments_safe :
    (p url : Bytes) (fps : ℤ) (spec : StreamSourceSpec)
    → parse_stream_source_url true url ≡ ok spec
    → let arguments = build_ffmpeg_arguments (b'/' ∷ p) url fps spec in
      (argument_of (bytes "-i") arguments ≡ some url)
      × ((protocols : Bytes) × (argument_of (bytes "-protocol_whitelist") arguments
            ≡ some protocols)
          × (contains spec.scheme (split_commas protocols) ≡ true)
          × (all (λ w. not (contains w (split_commas protocols))) local_protocols ≡ true))
build_ffmpeg_arguments_safe p url fps spec h =
    let (input, whitelist) = build-argument_of p url fps spec in
    let w = (parse_stream_source_url_iff url spec).0 h in
    (
      input,
      (ffmpeg_protocol_whitelist, whitelist, scheme_allowed spec.scheme w.listed, local_refused),
    )
