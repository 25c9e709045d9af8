-- ===== src/Arguments.antt =====
-- The command lines of the two programs: ParseArguments of daemon/src/main.cpp, and SafeSocketName,
-- ParseUid and ParseOptions of daemon/src/socket_proxy.cpp.
pub mod Names
pub mod Safe
pub mod Proxy
mod Tests
use vcames.Common.{
  ℕ, zero, suc, ◌+◌, ◌-◌, ◌*◌, ◌/◌, ◌%◌, ◌^◌, ◌≤◌, ◌<◌, min, String, ◌≡◌, refl, sym, ap, subst, ◌∙◌,
  ◌≢◌, ◌↔◌, ◌⊎◌, inl, inr, Bool, true, false, not, ◌&&◌, ◌||◌, Option, none, some, List, [], ◌∷◌,
  ◌++◌, map, append-nil, append_assoc, arith, ltb, leb, ◌==◌, if◌then◌else◌, ltb→lt, lt→ltb, leb→le,
  le→leb, ==_iff, Bool-cases, Option-cases, length, is_empty, get_elem?, take, drop, replicate, any,
  all, All, length-append, take-append-drop, length-take, length-drop, take-append, drop-append,
  drop-drop, length-replicate, ℤ, pos, negsuc, ==ℤ_iff, ◌==ℤ◌, to_decimal, to_string, Bytes,
  equal_iff, equal_self, starts_with-drop, starts_with-append, find-split, find-starts_with,
  find-append, find_index-none, find_index-some, find_index-all, find_index-append, bytes, equal,
  starts_with, find, find_index,
}
use vcames.Config.Command.{digits_value}

abbrev is_letter_or_digit : ℕ → Bool
is_letter_or_digit c =
    leb b'a' c && leb c b'z' || leb b'A' c && leb c b'Z' || leb b'0' c && leb c b'9'

unfoldable pub is_socket_byte : ℕ → Bool
is_socket_byte c = is_letter_or_digit c || c == b'_' || c == b'.' || c == b'-'

unfoldable pub is_path_byte : ℕ → Bool
unfolding is_socket_byte
is_path_byte c = is_socket_byte c || c == b'/'

-- `sizeof(sockaddr_un::sun_path)`
abbrev pub sun_path_size : ℕ
sun_path_size = 108

-- `SafeSocketName`, and the same test in `ParseArguments`.
unfoldable pub is_safe_socket_name : Bytes → Bool
is_safe_socket_name name =
    not (is_empty name) && ltb (length name) (sun_path_size - 1) && all is_socket_byte name

unfoldable pub is_absolute : Bytes → Bool
is_absolute [] = false
is_absolute (c ∷ s) = c == b'/'

unfoldable pub is_safe_path : Bytes → Bool
is_safe_path path = is_absolute path && leb (length path) 512 && all is_path_byte path

unfoldable pub is_app_uid : ℕ → Bool
is_app_uid value = leb 10000 value && leb value 2000000

-- `ParseUid`; a number too large for `from_chars` is too large for a user, too.
unfoldable pub parse_uid : Bytes → Option ℕ
parse_uid [] = none
parse_uid (c ∷ s) = elim (digits_value 0 (c ∷ s)) [
  | none ↦ none
  | some value ↦ if is_app_uid value then some value else none
]

-- The globals that the command line of the daemon sets; no uid is `static_cast<uid_t>(-1)`.
pub record Settings : Type 0 where
  pub control_socket_name : Bytes
  pub frame_socket_name : Bytes
  pub ffmpeg_path : Bytes
  pub extra_allowed_uid : Option ℕ
  pub drop_to_system : Bool
  pub prime_global_camera : Bool

abbrev pub default_settings : Settings
default_settings = record {
  control_socket_name = bytes "vcamesd";
  frame_socket_name = bytes "vcamesd_frames";
  ffmpeg_path = bytes "/data/adb/modules/vcames_root_bridge/bin/ffmpeg";
  extra_allowed_uid = none;
  drop_to_system = false;
  prime_global_camera = false;
}

pub data ArgumentError : Type 0 where
  usage bad_socket_name bad_ffmpeg_path bad_uid : ArgumentError

-- The arguments that stand alone.
unfoldable pub set_flag : Bytes → Settings → Option Settings
set_flag argument s =
    if equal argument (bytes "--drop-to-system")
    then some (record s { drop_to_system = true })
    else if equal argument (bytes "--prime-global-camera")
    then some (record s { prime_global_camera = true })
    else none

abbrev pub checked : Bool → ArgumentError → Settings → Settings ⊎ ArgumentError
checked true why s = inl s
checked false why s = inr why

-- The arguments that a value follows.
unfoldable pub set_value : Bytes → Bytes → Settings → Settings ⊎ ArgumentError
set_value argument value s =
    if equal argument (bytes "--control-socket")
    then checked (is_safe_socket_name value) bad_socket_name
        (record s { control_socket_name = value })
    else if equal argument (bytes "--frame-socket")
    then checked (is_safe_socket_name value) bad_socket_name
        (record s { frame_socket_name = value })
    else if equal argument (bytes "--ffmpeg-path")
    then checked (is_safe_path value) bad_ffmpeg_path (record s { ffmpeg_path = value })
    else if not (equal argument (bytes "--allowed-uid"))
    then inr usage
    else elim (parse_uid value) [
      | none ↦ inr bad_uid
      | some uid ↦ inl (record s { extra_allowed_uid = some uid })
    ]

-- `ParseArguments`, without the name of the program.
unfoldable pub parse_arguments : List Bytes → Settings → Settings ⊎ ArgumentError
unfolding set_flag set_value
parse_arguments [] s = inl s
parse_arguments (argument ∷ []) s = elim (set_flag argument s) [
  | some s' ↦ inl s'
  | none ↦ inr usage
]
parse_arguments (argument ∷ value ∷ rest) s = elim (set_flag argument s) [
  | some s' ↦ parse_arguments (value ∷ rest) s'
  | none ↦ elim (set_value argument value s) [
    | inl s' ↦ parse_arguments rest s'
    | inr why ↦ inr why
  ]
]

-- The options of the proxy.
pub record Options : Type 0 where
  pub allowed_uid : Option ℕ
  pub public_control : Bytes
  pub private_control : Bytes
  pub public_frames : Bytes
  pub private_frames : Bytes
  pub drop_to_system : Bool

abbrev pub default_options : Options
default_options = record {
  allowed_uid = none;
  public_control = bytes "vcamesd";
  private_control = bytes "vcamesd_private";
  public_frames = bytes "vcamesd_frames";
  private_frames = bytes "vcamesd_frames_private";
  drop_to_system = false;
}

-- The option that `target` points to.
unfoldable pub set_target : Bytes → Bytes → Options → Option Options
set_target argument value o =
    if equal argument (bytes "--private-frames")
    then some (record o { private_frames = value })
    else if equal argument (bytes "--public-frames")
    then some (record o { public_frames = value })
    else if equal argument (bytes "--private-control")
    then some (record o { private_control = value })
    else if equal argument (bytes "--public-control")
    then some (record o { public_control = value })
    else none

unfoldable pub set_option : Bytes → Bytes → Options → Option Options
unfolding set_target
set_option argument value o = elim (equal argument (bytes "--allowed-uid")) [
  | true ↦ elim (parse_uid value) [
    | none ↦ none
    | some uid ↦ some (record o { allowed_uid = some uid })
  ]
  | false ↦ if is_safe_socket_name value then set_target argument value o else none
]

unfoldable pub read_proxy_options : List Bytes → Options → Option Options
unfolding set_option
read_proxy_options [] o = some o
read_proxy_options (argument ∷ []) o =
    if equal argument (bytes "--drop-to-system")
    then some (record o { drop_to_system = true })
    else none
read_proxy_options (argument ∷ value ∷ rest) o = elim (equal argument (bytes "--drop-to-system")) [
  | true ↦ read_proxy_options (value ∷ rest) (record o { drop_to_system = true })
  | false ↦ elim (set_option argument value o) [
    | none ↦ none
    | some o' ↦ read_proxy_options rest o'
  ]
]

abbrev pub is_given : Option ℕ → Bool
is_given none = false
is_given (some uid) = true

unfoldable pub is_complete : Options → Bool
is_complete o =
    is_given o.allowed_uid
    && not (equal o.public_control o.private_control)
    && not (equal o.public_frames o.private_frames)

-- `ParseOptions`, without the name of the program; `none` is false.
unfoldable pub parse_options : List Bytes → Options → Option Options
unfolding read_proxy_options is_complete
parse_options arguments o = elim (read_proxy_options arguments o) [
  | none ↦ none
  | some o' ↦ if is_complete o' then some o' else none
]
