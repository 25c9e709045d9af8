-- ===== src/Image.antt =====
-- daemon/src/image_transform.cpp and daemon/include/vcames/image_transform.h: where a pixel of the
-- output is looked up in the source, and what the transforms share.
pub mod Gather
pub mod Nv21
pub mod Stb
pub mod Rgb
pub mod FromJpeg
pub mod ToJpeg
pub mod Halves
mod Tests
use vcames.Common.{
  ℕ, zero, suc, ◌+◌, ◌-◌, ◌*◌, ◌%◌, ◌^◌, ◌⊎◌, inl, inr, Bool, true, false, ◌||◌, Option, some, ltb,
  min, ◌==◌, if◌then◌else◌, ℤ, pos, negsuc, ◌==ℤ◌, Bytes,
}

-- What the code does with a `float`.
pub record Floats {ℓ} (Float : Type ℓ) : Type ℓ where
  pub from_int : ℤ → Float
  pub half : Float
  pub add : Float → Float → Float
  pub sub : Float → Float → Float
  pub mul : Float → Float → Float
  pub div : Float → Float → Float
  pub larger : Float → Float → Float
  pub clamp : Float → Float → Float → Float
  pub floor : Float → Float
  pub is_finite : Float → Bool
  pub is_positive : Float → Bool
  pub lround : Float → ℤ
  pub to_int : Float → ℤ
  pub to_byte : Float → ℕ

pub record TransformOptions : Type 0 where
  pub width : ℤ
  pub height : ℤ
  pub rotation : ℤ
  pub mirror : Bool
  pub jpeg_quality : ℤ

-- The texts that the transforms write to `*error`; a failed decoding adds the reason of stb_image.
pub data ImageError : Type 0 where
  bad_solid solid_too_large no_output input_too_large : ImageError
  not_a_jpeg no_size too_many_pixels : ImageError
  decode_failed bad_scale encode_failed : ImageError
  bad_jpeg_to_nv21 odd_nv21 bad_nv21_size bad_nv21_rotation : ImageError
  bad_nv21_jpeg bad_nv21_jpeg_size nv21_encode_failed : ImageError

-- A call that ends has written its output, or an error. It does not end well, as `none`, when it reads
-- outside a buffer.
abbrev pub Transformed : Type 0
Transformed = Option (Bytes ⊎ ImageError)

abbrev pub refuse : ImageError → Transformed
refuse why = some (inr why)

abbrev pub max_pixels : ℕ
max_pixels = 3840 * 2160

-- `value <= 0` and `(value & 1) != 0`
abbrev pub is_at_most_zero : ℤ → Bool
is_at_most_zero (pos n) = n == 0
is_at_most_zero (negsuc n) = true

abbrev pub is_negative : ℤ → Bool
is_negative (pos n) = false
is_negative (negsuc n) = true

abbrev pub is_odd : ℤ → Bool
is_odd (pos n) = n % 2 == 1
is_odd (negsuc n) = n % 2 == 0

-- `static_cast<size_t>`
abbrev pub to_size : ℤ → ℕ
to_size (pos n) = n
to_size (negsuc n) = 2 ^ 64 - 1 - n

-- `static_cast<int>` of a `long`
unfoldable pub wrap_int : ℤ → ℤ
wrap_int (pos n) =
    let low = n % 2 ^ 32 in if ltb low (2 ^ 31) then pos low else negsuc (2 ^ 32 - 1 - low)
wrap_int (negsuc n) =
    let low = n % 2 ^ 32 in if ltb low (2 ^ 31) then negsuc low else pos (2 ^ 32 - 1 - low)

-- `std::clamp(value, 0, highest)`
unfoldable pub clamp_index : ℤ → ℕ → ℕ
clamp_index (pos n) highest = min n highest
clamp_index (negsuc n) highest = 0

abbrev pub is_right_angle : ℤ → Bool
is_right_angle r = r ==ℤ pos 0 || r ==ℤ pos 90 || r ==ℤ pos 180 || r ==ℤ pos 270

abbrev pub is_sideways : ℤ → Bool
is_sideways r = r ==ℤ pos 90 || r ==ℤ pos 270

-- The arguments of `MapOutputToSource` but for the pixel; its callers have checked the sizes.
pub record Geometry : Type 0 where
  pub output_width : ℕ
  pub output_height : ℕ
  pub source_width : ℕ
  pub source_height : ℕ
  pub rotation : ℤ
  pub mirror : Bool

abbrev pub oriented_width : Geometry → ℕ
oriented_width g = if is_sideways g.rotation then g.source_height else g.source_width

abbrev pub oriented_height : Geometry → ℕ
oriented_height g = if is_sideways g.rotation then g.source_width else g.source_height

pub record SourceCoordinate {ℓ} (Float : Type ℓ) : Type ℓ where
  pub x : Float
  pub y : Float

module _ {ℓ} {Float : Type ℓ} (floats : Floats Float) where
  abbrev pub from : ℕ → Float
  from n = floats.from_int (pos n)

  -- `InvertOrientation`
  unfoldable pub invert_orientation : Float → Float → ℕ → ℕ → ℤ → SourceCoordinate Float
  invert_orientation x y source_width source_height rotation =
      if rotation ==ℤ pos 90
      then record { x = y; y = floats.sub (from (source_height - 1)) x }
      else if rotation ==ℤ pos 180
      then record {
        x = floats.sub (from (source_width - 1)) x;
        y = floats.sub (from (source_height - 1)) y;
      }
      else if rotation ==ℤ pos 270
      then record { x = floats.sub (from (source_width - 1)) y; y = x }
      else record { x = x; y = y }

  unfoldable pub scale_of : ℤ → ℤ → ℕ → ℕ → Float
  scale_of output_width output_height width height =
      floats.larger (floats.div (floats.from_int output_width) (from width))
        (floats.div (floats.from_int output_height) (from height))

  -- The centre of pixel `at` of `output_size`, scaled about the middle.
  unfoldable pub oriented : ℕ → ℕ → ℕ → Float → Float
  oriented at output_size oriented_size scale =
      floats.sub
        (floats.add
          (floats.div
            (floats.sub (floats.add (from at) floats.half)
              (floats.mul (from output_size) floats.half))
            scale)
          (floats.mul (from oriented_size) floats.half))
        floats.half

  unfoldable pub mirrored : Bool → ℕ → Float → Float
  mirrored mirror width x = if mirror then floats.sub (from (width - 1)) x else x

  -- `MapOutputToSource`, at a pixel of the output.
  unfoldable pub map_output_to_source : Geometry → ℕ → ℕ → SourceCoordinate Float
  unfolding invert_orientation scale_of oriented mirrored
  map_output_to_source g output_x output_y =
      let scale =
        scale_of (pos g.output_width) (pos g.output_height) (oriented_width g)
          (oriented_height g) in
      invert_orientation
        (mirrored g.mirror (oriented_width g)
          (oriented output_x g.output_width (oriented_width g) scale))
        (oriented output_y g.output_height (oriented_height g) scale) g.source_width g.source_height
        g.rotation
