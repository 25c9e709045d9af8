-- ===== src/Config/Tests.antt =====
-- Runs of the validation and of the control requests, and the theorems at concrete inputs.
use vcames.Common.{
  ◌≡◌, refl, true, some, [], ◌∷◌, ◌++◌, any, all, pos, ◌==ℤ◌, Bytes, bytes, equal, starts_with,
  find, find_index,
}
use mathlib.Core.List.Permᴰ
use vcames.Failure.{ok, err, unknown_command, not_terminated, duplicate_option, unknown_option}
use vcames.Stream.{
  find_scheme, schemes, has_control_character, to_lower, authority_of, separator,
  parse_stream_source_url,
}
use vcames.Config.{
  Config, default_config, validate, is_push_url, validate_source, is_bad_ffmpeg_path,
  contains_control_character, is_safe_protocol_value, is_fixed_output, is_right_angle,
}
use vcames.Config.Valid.{IsValid, validate_iff}
use vcames.Config.Command.{start, stop, status, parse_command, Values, parse_int, parse_bool}
use vcames.Config.Command.Accepts.{Visits, IsStart, parse_command-IsStart}
use vcames.Config.Command.Request.{start_request, parse_command-start_request}
use vcames.Config.Json.{json_escape}
use vcames.Config.Json.RoundTrip.{plain, read_string, read_string-json_escape}

abbrev in_order : Values → Values
in_order values = values

in_order-Visits : Visits in_order
in_order-Visits values = Permᴰ.refl values

validate-default : validate default_config ≡ ok tt
unfolding validate parse_stream_source_url bytes equal starts_with find find_index find_scheme
    schemes has_control_character any all to_lower authority_of separator is_push_url
    validate_source is_bad_ffmpeg_path contains_control_character is_safe_protocol_value
    is_fixed_output ◌==ℤ◌ is_right_angle
validate-default = refl

validate_iff_example : IsValid default_config
validate_iff_example = (validate_iff default_config).0 validate-default

abbrev request : Bytes
request = bytes "START\r\nurl=push://local\nrotation=90\nmirror=true\n.\nignored"

abbrev local_config : Config
local_config = record default_config {
  url = bytes "push://local";
  rotation = pos 90;
  mirror = true;
}

parse-request : parse_command in_order true request ≡ ok (start local_config)
unfolding parse_command validate bytes equal starts_with find find_index any all parse_int
    parse_bool is_push_url validate_source is_bad_ffmpeg_path contains_control_character
    is_safe_protocol_value is_fixed_output ◌==ℤ◌ is_right_angle
parse-request = refl

requests_refused :
    (parse_command in_order true (bytes "RESTART\n") ≡ err unknown_command)
    × (parse_command in_order true (bytes "START\nurl=a\n") ≡ err not_terminated)
    × (parse_command in_order true (bytes "START\nfps=30\nfps=30\n.\n")
        ≡ err (duplicate_option (bytes "fps")))
    × (parse_command in_order true (bytes "START\nurl=push://local\nx=1\n.\n")
        ≡ err (unknown_option (bytes "x")))
    × (parse_command in_order true (bytes "STOP\n.\n") ≡ ok stop)
    × (parse_command in_order true (bytes "STATUS") ≡ ok status)
unfolding parse_command validate bytes equal starts_with find find_index any all parse_int
    parse_bool is_push_url validate_source is_bad_ffmpeg_path contains_control_character
    is_safe_protocol_value is_fixed_output ◌==ℤ◌ is_right_angle
requests_refused = (refl, refl, refl, refl, refl, refl)

parse_command-IsStart_example : IsStart request local_config
parse_command-IsStart_example =
    parse_command-IsStart in_order in_order-Visits true request local_config parse-request

parse_command-start_request_example :
    parse_command in_order true (start_request default_config) ≡ ok (start default_config)
parse_command-start_request_example =
    parse_command-start_request in_order in_order-Visits default_config validate_iff_example refl

read_string-json_escape_example :
    read_string plain (json_escape (0x1f ∷ b'"' ∷ b'a' ∷ []) ++ b'"' ∷ bytes "}")
    ≡ some (0x1f ∷ b'"' ∷ b'a' ∷ [], bytes "}")
read_string-json_escape_example = read_string-json_escape (0x1f ∷ b'"' ∷ b'a' ∷ []) (bytes "}")
