-- ===== src/Image/ToJpeg.antt =====
-- `Nv21ToJpeg` and `CreateSolidJpeg` of daemon/src/image_transform.cpp.
pub mod Encode
use vcames.Common.{
  ℕ, zero, suc, ◌+◌, ◌-◌, ◌*◌, ◌/◌, ◌%◌, ◌^◌, ◌≤◌, ◌<◌, min, String, ◌≡◌, refl, sym, ap, subst, ◌∙◌,
  ◌≢◌, ◌↔◌, ◌⊎◌, inl, inr, Bool, true, false, not, ◌&&◌, ◌||◌, Option, none, some, List, [], ◌∷◌,
  ◌++◌, map, append-nil, append_assoc, arith, ltb, leb, ◌==◌, if◌then◌else◌, ltb→lt, lt→ltb, leb→le,
  le→leb, ==_iff, Bool-cases, Option-cases, length, is_empty, get_elem?, take, drop, replicate, any,
  all, All, length-append, take-append-drop, length-take, length-drop, take-append, drop-append,
  drop-drop, length-replicate, get_elem?-append_front, get_elem?-append_behind, ◌⊖◌, ◌+ℤ◌,
  shift_right_8, quarter, ℤ, pos, negsuc, ==ℤ_iff, ◌==ℤ◌, to_decimal, to_string, Bytes, equal_iff,
  equal_self, starts_with-drop, starts_with-append, find-split, find-starts_with, find-append,
  find_index-none, find_index-some, find_index-all, find_index-append, bytes, equal, starts_with,
  find, find_index,
}
use vcames.Common.Partial.{◌>>=◌}
use vcames.Image.{
  ImageError, Transformed, refuse, bad_solid, solid_too_large, encode_failed, bad_nv21_jpeg,
  bad_nv21_jpeg_size, nv21_encode_failed, max_pixels, is_at_most_zero, is_odd, to_size,
}
use vcames.Image.Gather.{gather, grid}
use vcames.Image.Stb.{Stb, encode, clamp_byte}
use vcames.Image.Nv21.{even}
use vcames.Image.Rgb.{Colour, bytes_of}

-- The colour of a luma byte and a pair.
unfoldable pub colour_of : ℕ → ℕ → ℕ → Colour
unfolding clamp_byte ◌⊖◌ shift_right_8
colour_of luma v u =
    let c = luma - 16 in
    record {
      red = clamp_byte (shift_right_8 ((298 * c + 409 * v + 128) ⊖ (409 * 128)));
      green =
          clamp_byte (shift_right_8 ((298 * c + (100 + 208) * 128 + 128) ⊖ (100 * u + 208 * v)));
      blue = clamp_byte (shift_right_8 ((298 * c + 516 * u + 128) ⊖ (516 * 128)));
    }

-- The body of the loop over pixels.
abbrev pub colour_bytes : Bytes → ℕ → ℕ → ℕ → ℕ → Option Bytes
colour_bytes input width height x y = do
  luma ← get_elem? input (y * width + x)
  v ← get_elem? input (width * height + (y / 2 * width + even x))
  u ← get_elem? input (width * height + (y / 2 * width + even x) + 1)
  some (bytes_of (colour_of luma v u))

unfoldable pub to_rgb : Bytes → ℕ → ℕ → Option Bytes
unfolding grid colour_of
to_rgb input width height = grid (colour_bytes input width height) width height

-- `quality < 1 || quality > 100`
abbrev pub is_bad_quality : ℤ → Bool
is_bad_quality (pos n) = n == 0 || ltb 100 n
is_bad_quality (negsuc n) = true

abbrev pub has_bad_parameters : ℤ → ℤ → ℤ → Bool
has_bad_parameters width height quality =
    is_at_most_zero width
    || is_at_most_zero height
    || is_odd width
    || is_odd height
    || is_bad_quality quality

-- `Nv21ToJpeg`; the flag is `output != nullptr`. No product of two `int` wraps a `size_t`.
unfoldable pub nv21_to_jpeg : Stb → Bool → Bytes → ℤ → ℤ → ℤ → Transformed
unfolding to_rgb encode
nv21_to_jpeg stb given input width height quality =
    if not given || has_bad_parameters width height quality
    then refuse bad_nv21_jpeg
    else (let pixels = to_size width * to_size height in
        if ltb max_pixels pixels || not (length input == pixels * 3 / 2)
        then refuse bad_nv21_jpeg_size
        else (to_rgb input (to_size width) (to_size height) >>= λ rgb.
            some (encode stb nv21_encode_failed width height rgb quality)))

-- The loop over the pixels of one colour.
unfoldable pub solid : Colour → ℕ → Bytes
solid c zero = []
solid c (suc n) = bytes_of c ++ solid c n

-- `CreateSolidJpeg`
unfoldable pub create_solid_jpeg : Stb → Bool → ℤ → ℤ → Colour → ℤ → Bytes ⊎ ImageError
unfolding solid encode
create_solid_jpeg stb given width height colour quality =
    if not given || is_at_most_zero width || is_at_most_zero height || is_bad_quality quality
    then inr bad_solid
    else (let pixel_count = to_size width * to_size height in
        if ltb max_pixels pixel_count
        then inr solid_too_large
        else encode stb encode_failed width height (solid colour pixel_count) quality)
