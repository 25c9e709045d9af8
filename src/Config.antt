-- ===== src/Config.antt =====
-- daemon/src/config.cpp and daemon/include/vcames/config.h: the configuration of a stream, and its
-- validation. `Command` has the control requests, `Json` the escaping of replies.
pub mod Valid
pub mod Command
pub mod Json
mod Tests
use vcames.Common.{
  ℕ, zero, suc, ◌+◌, ◌-◌, ◌*◌, ◌/◌, ◌%◌, ◌^◌, ◌≤◌, ◌<◌, min, String, ◌≡◌, refl, sym, ap, subst, ◌∙◌,
  ◌≢◌, ◌↔◌, ◌⊎◌, inl, inr, Bool, true, false, not, ◌&&◌, ◌||◌, Option, none, some, List, [], ◌∷◌,
  ◌++◌, map, append-nil, append_assoc, arith, ltb, leb, ◌==◌, if◌then◌else◌, ltb→lt, lt→ltb, leb→le,
  le→leb, ==_iff, Bool-cases, Option-cases, length, is_empty, get_elem?, take, drop, replicate, any,
  all, All, length-append, take-append-drop, length-take, length-drop, take-append, drop-append,
  drop-drop, length-replicate, ℤ, pos, negsuc, ==ℤ_iff, ◌==ℤ◌, to_decimal, to_string, Bytes,
  equal_iff, equal_self, bytes, equal, starts_with, find, find_index,
}
use vcames.Failure.{
  Result, ok, err, ◌>>=◌, ◌>>◌, fail_if, bad_ffmpeg_path, bad_video_device, fixed_output,
  bad_rotation,
}
use vcames.Stream.{is_control, parse_stream_source_url}

pub record Config : Type 0 where
  pub url : Bytes
  pub video_device : Bytes
  pub ffmpeg_path : Bytes
  pub width : ℤ
  pub height : ℤ
  pub fps : ℤ
  pub rotation : ℤ
  pub mirror : Bool

-- The initialisers of the struct's fields.
abbrev pub default_config : Config
default_config = record {
  url = bytes "http://192.168.1.10:8888/live.mjpg";
  video_device = bytes "/dev/video100";
  ffmpeg_path = bytes "/data/adb/modules/vcames_root_bridge/bin/ffmpeg";
  width = pos 1280;
  height = pos 720;
  fps = pos 30;
  rotation = pos 0;
  mirror = false;
}

unfoldable pub contains_control_character : Bytes → Bool
contains_control_character = any is_control

unfoldable pub is_safe_protocol_value : Bytes → ℕ → Bool
is_safe_protocol_value value maximum_length =
    not (is_empty value)
    && leb (length value) maximum_length
    && not (contains_control_character value)

-- The two URLs that name no network source.
unfoldable pub is_push_url : Bytes → Bool
is_push_url url = equal url (bytes "push://local") || equal url (bytes "push://placeholder")

-- `empty()`, `front() != '/'`, `size() > 512`, and the control characters.
unfoldable pub is_bad_ffmpeg_path : Bytes → Bool
is_bad_ffmpeg_path [] = true
is_bad_ffmpeg_path (c ∷ s) =
    not (c == b'/') || ltb 512 (length (c ∷ s)) || contains_control_character (c ∷ s)

-- The branch of a network source.
unfoldable pub validate_source : Config → Result (Unit {0})
validate_source c = do
  _ ← parse_stream_source_url true c.url
  fail_if (is_bad_ffmpeg_path c.ffmpeg_path) bad_ffmpeg_path
  ok tt

unfoldable pub is_fixed_output : Config → Bool
is_fixed_output c = c.width ==ℤ pos 1280 && c.height ==ℤ pos 720 && c.fps ==ℤ pos 30

unfoldable pub is_right_angle : ℤ → Bool
is_right_angle r = r ==ℤ pos 0 || r ==ℤ pos 90 || r ==ℤ pos 180 || r ==ℤ pos 270

-- `Config::Validate`
unfoldable pub validate : Config → Result (Unit {0})
validate c = do
  if is_push_url c.url then ok tt else validate_source c
  fail_if
      (not (starts_with (bytes "/dev/video") c.video_device)
        || not (is_safe_protocol_value c.video_device 64))
      bad_video_device
  fail_if (not (is_fixed_output c)) fixed_output
  fail_if (not (is_right_angle c.rotation)) bad_rotation
  ok tt
