-- ===== src/Engine/Pictures/Tests.antt =====
-- A frame of four pixels on its way through the engine, with the theorem at it.
use vcames.Common.{
  ◌≡◌, refl, inl, inr, true, false, none, some, [], ◌∷◌, arith, any, pos, Bytes, bytes, equal,
  starts_with,
}
use vcames.Config.{Config, default_config, is_safe_protocol_value, contains_control_character}
use vcames.Config.Valid.{IsValid}
use vcames.Engine.{Engine, push_nv21_frame, started_status}
use vcames.Engine.Pictures.{options_of, internal_jpeg_quality, push_nv21_frame-transforms}
use vcames.Image.{nv21_encode_failed}
use vcames.Image.Stb.{Stb, encode}
use vcames.Image.Nv21.{transform_nv21}
use vcames.Image.Halves.{halves_of}
use vcames.Image.ToJpeg.{nv21_to_jpeg}
use vcames.Image.ToJpeg.Encode.{IsRgbOf}

abbrev local_config : Config
local_config = record default_config { url = bytes "push://local"; rotation = pos 180 }

local_config-IsValid : IsValid local_config
unfolding is_safe_protocol_value contains_control_character any bytes starts_with
local_config-IsValid = record {
  source = inl refl;
  device_rest = bytes "100";
  device = refl;
  device_short = omega arith;
  device_printable = refl;
  width_fixed = refl;
  height_fixed = refl;
  fps_fixed = refl;
  right_angle = inr (inr (inl refl));
}

abbrev engine : Engine
engine = record {
  config = local_config;
  status = started_status (pos 0) (bytes "push://local");
  latest_frame = none;
  latest_generation = 1;
  stop_requested = false;
  sink = record { fd = some 7; open_files = 7 ∷ [] };
}

abbrev stb : Stb
stb = record { load = λ _. none; write_jpg = λ w h p q. ((0xff ∷ []) ∷ [], true) }

abbrev payload : Bytes
payload = 16 ∷ 16 ∷ 16 ∷ 16 ∷ 128 ∷ 128 ∷ []

not_refused : (push_nv21_frame (pos 9) payload (pos 2) (pos 2) (pos 8) engine).error ≡ none
unfolding push_nv21_frame started_status bytes equal
not_refused = refl

push_nv21_frame-transforms_example :
    (picture : Bytes) × (rgb : Bytes) × (transform_nv21 halves_of true payload
        (pos 2)
        (pos 2)
        (options_of local_config)
      ≡ some (inl picture))
    × (nv21_to_jpeg stb true picture (pos 1280) (pos 720) internal_jpeg_quality
        ≡ some (encode stb nv21_encode_failed (pos 1280) (pos 720) rgb internal_jpeg_quality))
    × IsRgbOf picture 1280 720 rgb
push_nv21_frame-transforms_example =
    push_nv21_frame-transforms halves_of stb (pos 9) payload (pos 2) (pos 2) (pos 8) engine
      local_config-IsValid not_refused
