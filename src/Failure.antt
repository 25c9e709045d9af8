-- ===== src/Failure.antt =====
-- The ways in which the daemon refuses an input, and the chain of checks that may refuse.
-- Each constructor stands for the text that the source writes to `*error`.
use vcames.Common.{◌++◌, ◌≡◌, refl, Bool, true, false, Bytes, bytes}

pub data Error : Type 0 where
  -- stream_source.cpp
  spec_missing bad_url no_authority unsafe_scheme malformed_scheme bad_authority : Error
  -- config.cpp
  bad_ffmpeg_path bad_video_device fixed_output bad_rotation : Error
  command_missing bad_request_size no_command_line unknown_command : Error
  bad_option not_terminated : Error
  duplicate_option bad_integer bad_boolean unknown_option : Bytes → Error

-- What a function that returns `bool` and writes `*error` leaves: its output, or the error.
pub data Result {ℓ} (Output : Type ℓ) : Type ℓ where
  err : Error → Result Output
  ok : Output → Result Output

module _ {ℓ κ} {Output : Type ℓ} {Next : Type κ} where
  -- The first check that fails decides; otherwise the next one runs on what was found.
  infixl 5 ◌>>=◌
  abbrev pub ◌>>=◌ : Result Output → (Output → Result Next) → Result Next
  err why >>= next = err why
  ok found >>= next = next found

  -- A chain that succeeds has passed its first check.
  pub passed_first :
      (check : Result Output) (next : Output → Result Next) {last : Next}
      → (check >>= next) ≡ ok last
      → (found : Output) × (check ≡ ok found) × (next found ≡ ok last)
  passed_first (err why) next h = cc
  passed_first (ok found) next h = (found, refl, h)

infixl 5 ◌>>◌
abbrev pub ◌>>◌ {κ} : {Next : Type κ} → Result (Unit {0}) → Result Next → Result Next
check >> next = check >>= λ _. next

-- `if (failed) return fail(message)`
abbrev pub fail_if : Bool → Error → Result (Unit {0})
fail_if true e = err e
fail_if false e = ok tt

pub message : Error → Bytes
message spec_missing = bytes "stream source output is missing"
message bad_url = bytes "stream URL is empty, too long, or contains control characters"
message no_authority = bytes "stream URL must contain a supported scheme and authority"
message unsafe_scheme = bytes "unsupported or unsafe stream URL scheme"
message malformed_scheme = bytes "stream URL scheme is malformed"
message bad_authority = bytes "stream URL authority is missing or too long"
message bad_ffmpeg_path = bytes "FFmpeg path must be a safe absolute path"
message bad_video_device = bytes "video device must be an absolute /dev/video* path"
message fixed_output = bytes "Pixel 5 global Provider output is fixed at 1280x720@30"
message bad_rotation = bytes "rotation must be 0, 90, 180, or 270"
message command_missing = bytes "missing command output"
message bad_request_size = bytes "request is empty or too large"
message no_command_line = bytes "request has no command line"
message unknown_command = bytes "unknown command"
message bad_option = bytes "invalid START option"
message not_terminated = bytes "START request is not terminated"
message (duplicate_option k) = bytes "duplicate START option: " ++ k
message (bad_integer k) = bytes "invalid integer for " ++ k
message (bad_boolean k) = bytes "invalid boolean for " ++ k
message (unknown_option k) = bytes "unknown START option: " ++ k

pub fail_if-eq-ok {ℓ} :
    {B : Type ℓ} (t : Bool) (e : Error) (k : Result B) {b : B}
    → (fail_if t e >> k) ≡ ok b
    → (t ≡ false) × (k ≡ ok b)
fail_if-eq-ok true e k h = cc
fail_if-eq-ok false e k h = (refl, h)
