-- ===== src/Config/Command.antt =====
-- `ParseCommand` of daemon/src/config.cpp: the text of a control request.
pub mod Request
pub mod Accepts
use vcames.Common.{
  ℕ, zero, suc, ◌+◌, ◌-◌, ◌*◌, ◌/◌, ◌%◌, ◌^◌, ◌≤◌, ◌<◌, min, String, ◌≡◌, refl, sym, ap, subst, ◌∙◌,
  ◌≢◌, ◌↔◌, ◌⊎◌, inl, inr, Bool, true, false, not, ◌&&◌, ◌||◌, Option, none, some, List, [], ◌∷◌,
  ◌++◌, map, append-nil, append_assoc, arith, ltb, leb, ◌==◌, if◌then◌else◌, ltb→lt, lt→ltb, leb→le,
  le→leb, ==_iff, Bool-cases, Option-cases, length, is_empty, get_elem?, take, drop, replicate, any,
  all, All, length-append, take-append-drop, length-take, length-drop, take-append, drop-append,
  drop-drop, length-replicate, ℤ, pos, negsuc, ==ℤ_iff, ◌==ℤ◌, to_decimal, to_string, Bytes,
  equal_iff, equal_self, bytes, equal, starts_with, find, find_index,
}
use vcames.Failure.{
  Result, ok, err, ◌>>=◌, ◌>>◌, fail_if, command_missing, bad_request_size, no_command_line,
  unknown_command, bad_option, not_terminated, duplicate_option, bad_integer, bad_boolean,
  unknown_option,
}
use vcames.Config.{Config, default_config, validate}

-- `CommandType` with the configuration of a start. `kInvalid` is no result of a successful parse.
pub data Command : Type 0 where
  start : Config → Command
  stop status : Command

-- The number that a text of decimal digits stands for, behind the digits read so far.
unfoldable pub digits_value : ℕ → Bytes → Option ℕ
digits_value acc [] = some acc
digits_value acc (c ∷ s) = elim (leb b'0' c && leb c b'9') [
  | true ↦ digits_value (acc * 10 + (c - b'0')) s
  | false ↦ none
]

abbrev int_max : ℕ
int_max = 2 ^ 31 - 1

unfoldable pub negate : ℕ → ℤ
negate zero = pos 0
negate (suc n) = negsuc n

-- A value out of the range of `int` is refused, as by `std::from_chars`.
abbrev within : ℕ → (ℕ → ℤ) → ℕ → Option ℤ
within limit sign n = if leb n limit then some (sign n) else none

unfoldable pub parse_magnitude : ℕ → (ℕ → ℤ) → Bytes → Option ℤ
unfolding digits_value
parse_magnitude limit sign [] = none
parse_magnitude limit sign (c ∷ s) = elim (digits_value 0 (c ∷ s)) [
  | none ↦ none
  | some n ↦ within limit sign n
]

-- `ParseInt`: `from_chars` takes a sign `-` and digits, and has to reach the end of the text.
unfoldable pub parse_int : Bytes → Option ℤ
unfolding parse_magnitude negate
parse_int [] = none
parse_int (c ∷ s) =
    if c == b'-'
    then parse_magnitude (int_max + 1) negate s
    else parse_magnitude int_max pos (c ∷ s)

unfoldable pub parse_bool : Bytes → Option Bool
parse_bool text =
    if equal text (bytes "1") || equal text (bytes "true")
    then some true
    else if equal text (bytes "0") || equal text (bytes "false")
    then some false
    else none

-- The lines that successive calls of `std::getline` return.
unfoldable pub onto_line : ℕ → List Bytes → List Bytes
onto_line c [] = (c ∷ []) ∷ []
onto_line c (l ∷ ls) = (c ∷ l) ∷ ls

unfoldable pub lines : Bytes → List Bytes
unfolding onto_line
lines [] = []
lines (c ∷ s) = if c == b'\n' then [] ∷ lines s else onto_line c (lines s)

-- One `\r` at the end of a line is dropped.
unfoldable pub strip_return : Bytes → Bytes
strip_return [] = []
strip_return (c ∷ []) = if c == b'\r' then [] else c ∷ []
strip_return (c ∷ d ∷ s) = c ∷ strip_return (d ∷ s)

-- `std::unordered_map<std::string, std::string>`, newest entry first.
abbrev pub Values : Type 0
Values = List (Bytes × Bytes)

unfoldable pub lookup : Bytes → Values → Option Bytes
lookup k [] = none
lookup k ((j, v) ∷ m) = if equal j k then some v else lookup k m

-- One line of options, with the values so far.
unfoldable pub read_option : Values → Bytes → Result Values
unfolding lookup
read_option values line = elim (find_index (λ c. c == b'=') line) [
  | none ↦ err bad_option
  | some zero ↦ err bad_option
  | some (suc i) ↦
      let key = take (suc i) line in
      elim (lookup key values) [
        | none ↦ ok ((key, drop (suc i + 1) line) ∷ values)
        | some _ ↦ err (duplicate_option key)
      ]
]

-- The loop over the lines behind `START`, up to the line `.`.
unfoldable pub read_options : Values → List Bytes → Result Values
unfolding read_option
read_options values [] = err not_terminated
read_options values (l ∷ ls) = elim (equal (strip_return l) (bytes ".")) [
  | true ↦ ok values
  | false ↦ do values' ← read_option values (strip_return l); read_options values' ls
]

unfoldable pub string_option : String → Values → Bytes → Bytes
string_option key values target = elim (lookup (bytes key) values) [ none ↦ target | some v ↦ v ]

unfoldable pub int_option : String → Values → ℤ → Result ℤ
int_option key values target = elim (lookup (bytes key) values) [
  | none ↦ ok target
  | some v ↦ elim (parse_int v) [ none ↦ err (bad_integer (bytes key)) | some n ↦ ok n ]
]

unfoldable pub bool_option : String → Values → Bool → Result Bool
bool_option key values target = elim (lookup (bytes key) values) [
  | none ↦ ok target
  | some v ↦ elim (parse_bool v) [ none ↦ err (bad_boolean (bytes key)) | some b ↦ ok b ]
]

-- The fields of `config`, from the options that are given.
unfoldable pub config_of : Values → Result Config
unfolding string_option int_option bool_option
config_of values = do
  width ← int_option "width" values default_config.width
  height ← int_option "height" values default_config.height
  fps ← int_option "fps" values default_config.fps
  rotation ← int_option "rotation" values default_config.rotation
  mirror ← bool_option "mirror" values default_config.mirror
  ok (record default_config {
    url = string_option "url" values default_config.url;
    video_device = string_option "video_device" values default_config.video_device;
    width = width;
    height = height;
    fps = fps;
    rotation = rotation;
    mirror = mirror;
  })

-- `kKnownOptions.contains`
unfoldable pub is_known_option : Bytes → Bool
is_known_option k =
    equal k (bytes "url")
    || equal k (bytes "video_device")
    || equal k (bytes "width")
    || equal k (bytes "height")
    || equal k (bytes "fps")
    || equal k (bytes "rotation")
    || equal k (bytes "mirror")

unfoldable pub check_known : Values → Result (Unit {0})
unfolding is_known_option
check_known [] = ok tt
check_known ((k, v) ∷ m) = elim (is_known_option k) [
  | true ↦ check_known m
  | false ↦ err (unknown_option k)
]

-- The order in which a hash map is walked is not specified: it is a parameter, which decides no
-- more than which unknown option an error names.
module _ (iteration_order : Values → Values) where
  unfoldable pub parse_start : List Bytes → Result Command
  unfolding read_options config_of check_known
  parse_start options = do
    values ← read_options [] options
    config ← config_of values
    check_known (iteration_order values)
    validate config
    ok (start config)

  unfoldable pub parse_lines : List Bytes → Result Command
  unfolding parse_start strip_return
  parse_lines [] = err no_command_line
  parse_lines (l ∷ ls) =
      let line = strip_return l in
      if equal line (bytes "STOP")
      then ok stop
      else if equal line (bytes "STATUS")
      then ok status
      else if not (equal line (bytes "START"))
      then err unknown_command
      else parse_start ls

  -- `ParseCommand`; the flag is `command != nullptr`.
  unfoldable pub parse_command : Bool → Bytes → Result Command
  unfolding parse_lines lines
  parse_command given request = do
    fail_if (not given) command_missing
    fail_if (is_empty request || ltb (16 * 1024) (length request)) bad_request_size
    parse_lines (lines request)
