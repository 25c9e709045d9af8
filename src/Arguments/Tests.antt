-- ===== src/Arguments/Tests.antt =====
-- Command lines of the daemon and of the proxy, and the theorems at them.
use vcames.Common.{◌≡◌, refl, inl, inr, true, some, List, [], ◌∷◌, all, Bytes, bytes, equal}
use vcames.Config.Command.{digits_value}
use vcames.Arguments.{
  Settings, default_settings, Options, default_options, parse_arguments, parse_options, usage,
  bad_uid, bad_socket_name, is_safe_socket_name, is_safe_path, is_socket_byte, is_path_byte,
  is_absolute, parse_uid, is_app_uid,
}
use vcames.Arguments.Names.{is_safe_socket_name-IsSocketName, is_safe_path-IsExecutablePath}
use vcames.Arguments.Safe.{IsSafe, parse_arguments-IsSafe}
use vcames.Arguments.Proxy.{IsSafeProxy, IsComplete, parse_options-IsSafeProxy}

abbrev command_line : List Bytes
command_line = bytes "--drop-to-system" ∷ bytes "--allowed-uid" ∷ bytes "10123" ∷ []

abbrev settings : Settings
settings = record default_settings { extra_allowed_uid = some 10123; drop_to_system = true }

accepts : parse_arguments command_line default_settings ≡ inl settings
unfolding parse_arguments bytes equal digits_value parse_uid is_app_uid
accepts = refl

refuses :
    (parse_arguments (bytes "--allowed-uid" ∷ []) default_settings ≡ inr usage)
    × (parse_arguments (bytes "--allowed-uid" ∷ bytes "1000" ∷ []) default_settings ≡ inr bad_uid)
    × (parse_arguments (bytes "--frame-socket" ∷ bytes "a/b" ∷ []) default_settings
        ≡ inr bad_socket_name)
unfolding parse_arguments bytes equal digits_value parse_uid is_app_uid is_safe_socket_name
    is_socket_byte all
refuses = (refl, refl, refl)

defaults-IsSafe : IsSafe default_settings
unfolding is_safe_socket_name is_safe_path is_socket_byte is_path_byte is_absolute all bytes
defaults-IsSafe = record {
  control = is_safe_socket_name-IsSocketName _ refl;
  frames = is_safe_socket_name-IsSocketName _ refl;
  path = is_safe_path-IsExecutablePath _ refl;
  uid = tt;
}

parse_arguments-IsSafe_example : IsSafe settings
parse_arguments-IsSafe_example =
    parse_arguments-IsSafe command_line default_settings settings defaults-IsSafe accepts

abbrev proxy_line : List Bytes
proxy_line = bytes "--allowed-uid" ∷ bytes "10123" ∷ bytes "--private-control" ∷ bytes "inner" ∷ []

abbrev options : Options
options = record default_options { allowed_uid = some 10123; private_control = bytes "inner" }

proxy_accepts : parse_options proxy_line default_options ≡ some options
unfolding parse_options bytes equal digits_value parse_uid is_app_uid is_safe_socket_name
    is_socket_byte all
proxy_accepts = refl

defaults-IsSafeProxy : IsSafeProxy default_options
unfolding is_safe_socket_name is_socket_byte all bytes
defaults-IsSafeProxy = record {
  public_control = is_safe_socket_name-IsSocketName _ refl;
  private_control = is_safe_socket_name-IsSocketName _ refl;
  public_frames = is_safe_socket_name-IsSocketName _ refl;
  private_frames = is_safe_socket_name-IsSocketName _ refl;
  uid = tt;
}

parse_options-IsSafeProxy_example : IsSafeProxy options × IsComplete options
parse_options-IsSafeProxy_example =
    parse_options-IsSafeProxy proxy_line default_options options defaults-IsSafeProxy proxy_accepts

-- The two public sockets may have the same name.
accepts_one_public_name :
    parse_options
      (bytes "--allowed-uid" ∷ bytes "10123" ∷ bytes "--public-frames" ∷ bytes "vcamesd" ∷ [])
      default_options
    ≡ some (record default_options { allowed_uid = some 10123; public_frames = bytes "vcamesd" })
unfolding parse_options bytes equal digits_value parse_uid is_app_uid is_safe_socket_name
    is_socket_byte all
accepts_one_public_name = refl
