-- ===== src/Image/Rgb.antt =====
-- The colours of daemon/src/image_transform.cpp: `SampleChannel`, and the sums that make luma and chroma
-- of them.
pub mod Range
pub mod Inside
use vcames.Common.{
  ℕ, zero, suc, ◌+◌, ◌-◌, ◌*◌, ◌/◌, ◌%◌, ◌^◌, ◌≤◌, ◌<◌, min, String, ◌≡◌, refl, sym, ap, subst, ◌∙◌,
  ◌≢◌, ◌↔◌, ◌⊎◌, inl, inr, Bool, true, false, not, ◌&&◌, ◌||◌, Option, none, some, List, [], ◌∷◌,
  ◌++◌, map, append-nil, append_assoc, arith, ltb, leb, ◌==◌, if◌then◌else◌, ltb→lt, lt→ltb, leb→le,
  le→leb, ==_iff, Bool-cases, Option-cases, length, is_empty, get_elem?, take, drop, replicate, any,
  all, All, length-append, take-append-drop, length-take, length-drop, take-append, drop-append,
  drop-drop, length-replicate, get_elem?-append_front, get_elem?-append_behind, ◌⊖◌, ◌+ℤ◌,
  shift_right_8, quarter, ℤ, pos, negsuc, ==ℤ_iff, ◌==ℤ◌, to_decimal, to_string, Bytes, equal_iff,
  equal_self, starts_with-drop, starts_with-append, find-split, find-starts_with, find-append,
  find_index-none, find_index-some, find_index-all, find_index-append, bytes, equal, starts_with,
  find, find_index,
}
use vcames.Common.Partial.{◌>>=◌}
use vcames.Image.{Floats, Geometry, SourceCoordinate, from, map_output_to_source}
use vcames.Image.Stb.{clamp_byte}

pub record Colour : Type 0 where
  pub red : ℕ
  pub green : ℕ
  pub blue : ℕ

abbrev pub bytes_of : Colour → Bytes
bytes_of c = c.red ∷ c.green ∷ c.blue ∷ []

unfoldable pub luma_of : Colour → ℕ
unfolding clamp_byte ◌+ℤ◌ shift_right_8
luma_of c =
    clamp_byte (shift_right_8 (pos (66 * c.red + 129 * c.green + 25 * c.blue + 128)) +ℤ pos 16)

unfoldable pub u_of : Colour → ℤ
unfolding ◌+ℤ◌ ◌⊖◌ shift_right_8
u_of c = shift_right_8 ((112 * c.blue + 128) ⊖ (38 * c.red + 74 * c.green)) +ℤ pos 128

unfoldable pub v_of : Colour → ℤ
unfolding ◌+ℤ◌ ◌⊖◌ shift_right_8
v_of c = shift_right_8 ((112 * c.red + 128) ⊖ (94 * c.green + 18 * c.blue)) +ℤ pos 128

-- The byte of four pixels.
unfoldable pub mean_of : ℤ → ℤ → ℤ → ℤ → ℕ
unfolding ◌+ℤ◌ quarter clamp_byte
mean_of a b c d = clamp_byte (quarter (pos 0 +ℤ a +ℤ b +ℤ c +ℤ d))

-- An index that is not negative; the clamped coordinates are not.
abbrev pub as_index : ℤ → Option ℕ
as_index (pos n) = some n
as_index (negsuc n) = none

module _ {ℓ} {Float : Type ℓ} (floats : Floats Float) where
  -- A channel of a pixel, as a `float`.
  abbrev pub channel_at : Bytes → ℕ → ℕ → ℕ → ℕ → Option Float
  channel_at image width channel x y = do
    value ← get_elem? image ((y * width + x) * 3 + channel)
    some (from floats value)

  -- `a + (b - a) * f`
  abbrev pub blend : Float → Float → Float → Float
  blend a b f = floats.add a (floats.mul (floats.sub b a) f)

  -- `SampleChannel`
  unfoldable pub sample_channel : Bytes → ℕ → ℕ → Float → Float → ℕ → Option ℕ
  sample_channel image width height at_x at_y channel =
      let x = floats.clamp at_x (from floats 0) (from floats (width - 1)) in
      let y = floats.clamp at_y (from floats 0) (from floats (height - 1)) in
      as_index (floats.to_int (floats.floor x)) >>= λ x0.
      as_index (floats.to_int (floats.floor y)) >>= λ y0.
      let x1 = min (x0 + 1) (width - 1) in
      let y1 = min (y0 + 1) (height - 1) in
      let fx = floats.sub x (from floats x0) in
      let fy = floats.sub y (from floats y0) in
      channel_at image width channel x0 y0 >>= λ top_left.
      channel_at image width channel x1 y0 >>= λ top_right.
      channel_at image width channel x0 y1 >>= λ bottom_left.
      channel_at image width channel x1 y1 >>= λ bottom_right. some (
        floats.to_byte (
          floats.clamp (blend (blend top_left top_right fx) (blend bottom_left bottom_right fx) fy)
            (from floats 0) (from floats 255)))

  -- The three channels at a pixel of the output.
  unfoldable pub sample_pixel : Bytes → Geometry → ℕ → ℕ → Option Colour
  unfolding sample_channel
  sample_pixel image g x y =
      let source = map_output_to_source floats g x y in
      let sample = sample_channel image g.source_width g.source_height source.x source.y in
      do
        red ← sample 0
        green ← sample 1
        blue ← sample 2
        some (record { red = red; green = green; blue = blue })
