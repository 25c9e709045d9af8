-- ===== src/Image/Rgb/Inside.antt =====
-- `SampleChannel` of daemon/src/image_transform.cpp: its reads, and the range of what it gives.
use vcames.Common.{ℕ, ◌+◌, ◌-◌, ◌*◌, ◌^◌, ◌≤◌, ◌<◌, min, ◌≡◌, refl, some, arith, length, pos, Bytes}
use vcames.Image.{Floats, Geometry, from, map_output_to_source}
use vcames.Image.Gather.{in_row}
use vcames.Image.Nv21.Copy.{get_elem?-inside}
use vcames.Image.Rgb.{Colour, channel_at, sample_channel, sample_pixel}
use vcames.Image.Rgb.Range.{IsColour}

-- The largest side that stb_image decodes, `STBI_MAX_DIMENSIONS`.
abbrev pub max_side : ℕ
max_side = 2 ^ 24

-- What `std::clamp`, `std::floor` and the conversions do to a `float`; whole numbers up to 2^24 are exact.
-- The scale is positive and finite, so no coordinate is a NaN. For a NaN, too, this asks for a result in
-- range: it is the case where the conversion takes a NaN to 0, as that of AArch64 does; C++ leaves it open.
pub record IsClamped {ℓ} {Float : Type ℓ} (floats : Floats Float) : Type ℓ where
  pub floor_clamped :
      (v : Float) (n : ℕ)
      → n ≤ max_side
      → (k : ℕ) × (floats.to_int
            (floats.floor (floats.clamp v (floats.from_int (pos 0)) (floats.from_int (pos n))))
          ≡ pos k)
        × (k ≤ n)
  pub byte_clamped :
      (v : Float)
      → floats.to_byte (floats.clamp v (floats.from_int (pos 0)) (floats.from_int (pos 255))) ≤ 255

-- A decoded picture, as stb_image documents it: three bytes for each pixel.
pub record IsImage (image : Bytes) (width height : ℕ) : Type 0 where
  pub wide : 0 < width
  pub high : 0 < height
  pub width_small : width ≤ max_side
  pub height_small : height ≤ max_side
  pub three_channels : length image ≡ width * height * 3

module _ {ℓ} {Float : Type ℓ} (floats : Floats Float) (clamped : IsClamped floats) (image : Bytes)
    (width height : ℕ) (is_image : IsImage image width height) where
  read_channel :
      (channel x y : ℕ)
      → channel < 3
      → x < width
      → y < height
      → (value : Float) × (channel_at floats image width channel x y ≡ some value)
  read_channel channel x y small left below =
      let (value, is) =
        get_elem?-inside image ((y * width + x) * 3 + channel)
          (omega (arith, is_image.three_channels, in_row y height width x below left)) in
      (from floats value, rw is refl)

  -- Every read is inside the picture, and a byte comes out.
  sample_channel-gives :
      (at_x at_y : Float) (channel : ℕ)
      → channel < 3
      → (value : ℕ) × (sample_channel floats image width height at_x at_y channel ≡ some value)
        × (value ≤ 255)
  unfolding sample_channel
  sample_channel-gives at_x at_y channel small =
      let (x0, x0_is, x0_in) =
        clamped.floor_clamped at_x (width - 1) (omega (arith, is_image.width_small)) in
      let (y0, y0_is, y0_in) =
        clamped.floor_clamped at_y (height - 1) (omega (arith, is_image.height_small)) in
      let (top_left, a) =
        read_channel channel x0 y0 small (omega (arith, is_image, x0_in))
          (omega (arith, is_image, y0_in)) in
      let (top_right, b) =
        read_channel channel (min (x0 + 1) (width - 1)) y0 small (omega (arith, is_image))
          (omega (arith, is_image, y0_in)) in
      let (bottom_left, c) =
        read_channel channel x0 (min (y0 + 1) (height - 1)) small (omega (arith, is_image, x0_in))
          (omega (arith, is_image)) in
      let (bottom_right, d) =
        read_channel channel (min (x0 + 1) (width - 1)) (min (y0 + 1) (height - 1)) small
          (omega (arith, is_image)) (omega (arith, is_image)) in
      rw (sample_channel, x0_is, y0_is, a, b, c, d) (_, refl, clamped.byte_clamped _)

module _ {ℓ} {Float : Type ℓ} (floats : Floats Float) (clamped : IsClamped floats) (image : Bytes)
    (g : Geometry) (is_image : IsImage image g.source_width g.source_height) where
  pub sample_pixel-IsColour :
      (x y : ℕ) → (c : Colour) × (sample_pixel floats image g x y ≡ some c) × IsColour c
  unfolding sample_pixel
  sample_pixel-IsColour x y =
      let source = map_output_to_source floats g x y in
      let sample =
        sample_channel-gives floats clamped image g.source_width g.source_height is_image source.x
          source.y in
      let (red, red_is, red_small) = sample 0 (omega arith) in
      let (green, green_is, green_small) = sample 1 (omega arith) in
      let (blue, blue_is, blue_small) = sample 2 (omega arith) in
      rw (sample_pixel, red_is, green_is, blue_is)
        (
          record { red = red; green = green; blue = blue },
          refl,
          record { red_small = red_small; green_small = green_small; blue_small = blue_small },
        )
