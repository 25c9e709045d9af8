-- ===== src/Config/Valid.antt =====
-- `Config::Validate` of daemon/src/config.cpp against the configurations that are safe to run.
use vcames.Common.{
  ◌≤◌, ◌≡◌, refl, ◌↔◌, ◌⊎◌, inl, inr, Bool, true, false, not, ◌||◌, [], ◌∷◌, ◌++◌, arith,
  if◌then◌else◌, Bool-cases, length, drop, ℤ, pos, ==ℤ_iff, Bytes, equal_iff, starts_with-drop,
  bytes, equal, starts_with,
}
use vcames.Failure.{
  Result, ok, err, ◌>>◌, fail_if, fail_if-eq-ok, passed_first, bad_ffmpeg_path, bad_video_device,
  fixed_output, bad_rotation,
}
use vcames.Stream.{StreamSourceSpec, parse_stream_source_url}
use vcames.Config.{
  Config, contains_control_character, is_safe_protocol_value, is_push_url, is_bad_ffmpeg_path,
  validate_source, is_fixed_output, is_right_angle, validate,
}

-- A network source: an accepted URL and an absolute path of an executable.
pub record IsNetwork (c : Config) : Type 0 where
  pub spec : StreamSourceSpec
  pub accepted : parse_stream_source_url true c.url ≡ ok spec
  pub path_rest : Bytes
  pub absolute : c.ffmpeg_path ≡ b'/' ∷ path_rest
  pub path_short : length c.ffmpeg_path ≤ 512
  pub path_printable : contains_control_character c.ffmpeg_path ≡ false

-- A configuration that is safe to run.
pub record IsValid (c : Config) : Type 0 where
  pub source : (c.url ≡ bytes "push://local") ⊎ (c.url ≡ bytes "push://placeholder") ⊎ IsNetwork c
  pub device_rest : Bytes
  pub device : c.video_device ≡ bytes "/dev/video" ++ device_rest
  pub device_short : length c.video_device ≤ 64
  pub device_printable : contains_control_character c.video_device ≡ false
  pub width_fixed : c.width ≡ pos 1280
  pub height_fixed : c.height ≡ pos 720
  pub fps_fixed : c.fps ≡ pos 30
  pub right_angle :
      (c.rotation ≡ pos 0) ⊎ (c.rotation ≡ pos 90) ⊎ (c.rotation ≡ pos 180) ⊎ (c.rotation ≡ pos 270)

is_fixed_output_iff :
    (c : Config)
    → (is_fixed_output c ≡ true) ↔ ((c.width ≡ pos 1280) × (c.height ≡ pos 720) × (c.fps ≡ pos 30))
unfolding is_fixed_output
is_fixed_output_iff c =
    ground (arith, ==ℤ_iff c.width (pos 1280), ==ℤ_iff c.height (pos 720), ==ℤ_iff c.fps (pos 30))

is_right_angle_iff :
    (r : ℤ)
    → (is_right_angle r ≡ true) ↔ ((r ≡ pos 0) ⊎ (r ≡ pos 90) ⊎ (r ≡ pos 180) ⊎ (r ≡ pos 270))
unfolding is_right_angle
is_right_angle_iff r =
    ground (arith, ==ℤ_iff r (pos 0), ==ℤ_iff r (pos 90), ==ℤ_iff r (pos 180), ==ℤ_iff r (pos 270))

bad_ffmpeg_path_no :
    (p : Bytes)
    → is_bad_ffmpeg_path p ≡ false
    → (rest : Bytes) × (p ≡ b'/' ∷ rest) × (length p ≤ 512) × (contains_control_character p ≡ false)
unfolding is_bad_ffmpeg_path
bad_ffmpeg_path_no [] h = cc
bad_ffmpeg_path_no (c ∷ s) h = (s, ground arith, ground arith, ground arith)

path_passes :
    (p rest : Bytes)
    → p ≡ b'/' ∷ rest
    → length p ≤ 512
    → contains_control_character p ≡ false
    → is_bad_ffmpeg_path p ≡ false
unfolding is_bad_ffmpeg_path
path_passes [] rest e short clean = cc
path_passes (c ∷ s) rest e short clean = ground arith

validate_source-IsNetwork : (c : Config) → validate_source c ≡ ok tt → IsNetwork c
unfolding validate_source
validate_source-IsNetwork c h =
    let (spec, accepted, k) =
      passed_first (parse_stream_source_url true c.url)
        (λ _. fail_if (is_bad_ffmpeg_path c.ffmpeg_path) bad_ffmpeg_path >> ok tt) h in
    let (rest, absolute, short, printable) =
      bad_ffmpeg_path_no c.ffmpeg_path (fail_if-eq-ok _ bad_ffmpeg_path (ok tt) k).0 in
    record {
      spec = spec;
      accepted = accepted;
      path_rest = rest;
      absolute = absolute;
      path_short = short;
      path_printable = printable;
    }

device_of :
    (d : Bytes)
    → (not (starts_with (bytes "/dev/video") d) || not (is_safe_protocol_value d 64)) ≡ false
    → (rest : Bytes) × (d ≡ bytes "/dev/video" ++ rest)
      × (length d ≤ 64)
      × (contains_control_character d ≡ false)
unfolding is_safe_protocol_value
device_of d h = (
  drop (length (bytes "/dev/video")) d,
  starts_with-drop (bytes "/dev/video") d (ground arith),
  ground arith,
  ground arith,
)

device_passes :
    (d rest : Bytes)
    → d ≡ bytes "/dev/video" ++ rest
    → length d ≤ 64
    → contains_control_character d ≡ false
    → (not (starts_with (bytes "/dev/video") d) || not (is_safe_protocol_value d 64)) ≡ false
unfolding is_safe_protocol_value starts_with bytes
device_passes d rest e short clean = rw e (ground (arith, e))

-- A configuration that passes names a push URL or a network source.
source_of :
    (c : Config) {u : Unit {0}}
    → (if is_push_url c.url then ok tt else validate_source c) ≡ ok u
    → (c.url ≡ bytes "push://local") ⊎ (c.url ≡ bytes "push://placeholder") ⊎ IsNetwork c
unfolding is_push_url
source_of c h = elim (Bool-cases (equal c.url (bytes "push://local"))) [
  | inl e ↦ inl ((equal_iff c.url (bytes "push://local")).0 e)
  | inr e ↦ elim (Bool-cases (equal c.url (bytes "push://placeholder"))) [
    | inl f ↦ inr (inl ((equal_iff c.url (bytes "push://placeholder")).0 f))
    | inr f ↦ inr (inr (validate_source-IsNetwork c (ground arith)))
  ]
]

source_passes :
    (c : Config)
    → (c.url ≡ bytes "push://local") ⊎ (c.url ≡ bytes "push://placeholder") ⊎ IsNetwork c
    → (if is_push_url c.url then ok tt else validate_source c) ≡ ok tt
unfolding is_push_url
source_passes c (inl e) = ground (arith, equal_iff c.url (bytes "push://local"))
source_passes c (inr (inl e)) = ground (arith, equal_iff c.url (bytes "push://placeholder"))
source_passes c (inr (inr n)) = ground (arith, network)
  where
    network : validate_source c ≡ ok tt
    network =
        unfold validate_source in
        rw n.accepted (
          ground
            (arith, path_passes c.ffmpeg_path n.path_rest n.absolute n.path_short n.path_printable))

all_pass :
    (source : Result (Unit {0})) (device output angle : Bool)
    → (source
        >> (fail_if device bad_video_device
            >> (fail_if output fixed_output >> (fail_if angle bad_rotation >> ok (tt {0})))))
      ≡ ok (tt {0})
    → (source ≡ ok (tt {0})) × (device ≡ false) × (output ≡ false) × (angle ≡ false)
all_pass (err e) device output angle h = cc
all_pass (ok _) device output angle h = ground arith

validate-IsValid : (c : Config) → validate c ≡ ok tt → IsValid c
unfolding validate
validate-IsValid c passed =
    let (source, device, output, angle) =
      all_pass (if is_push_url c.url then ok tt else validate_source c)
        (not (starts_with (bytes "/dev/video") c.video_device)
          || not (is_safe_protocol_value c.video_device 64))
        (not (is_fixed_output c)) (not (is_right_angle c.rotation)) passed in
    let (rest, cut, short, clean) = device_of c.video_device device in
    let (w, h, f) = (is_fixed_output_iff c).0 (ground arith) in
    record {
      source = source_of c source;
      device_rest = rest;
      device = cut;
      device_short = short;
      device_printable = clean;
      width_fixed = w;
      height_fixed = h;
      fps_fixed = f;
      right_angle = (is_right_angle_iff c.rotation).0 (ground arith);
    }

IsValid-validate : (c : Config) → IsValid c → validate c ≡ ok tt
unfolding validate
IsValid-validate c v =
    rw
      (
        source_passes c v.source,
        device_passes c.video_device v.device_rest v.device v.device_short v.device_printable,
        (is_fixed_output_iff c).1 (v.width_fixed, v.height_fixed, v.fps_fixed),
        (is_right_angle_iff c.rotation).1 v.right_angle,
      )
      refl

-- `Validate` passes exactly the configurations that are safe to run: a push URL, or an accepted network
-- URL with an absolute printable FFmpeg path of at most 512 bytes; a printable /dev/video* device of at
-- most 64 bytes; 1280x720 at 30 frames a second; and a rotation by a multiple of a right angle.
pub validate_iff : (c : Config) → (validate c ≡ ok tt) ↔ IsValid c
validate_iff c = (validate-IsValid c, IsValid-validate c)
