-- ===== src/Image/FromJpeg.antt =====
-- `TransformJpeg` and `TransformJpegToNv21` of daemon/src/image_transform.cpp.
pub mod Render
pub mod Video
use vcames.Common.{
  ℕ, zero, suc, ◌+◌, ◌-◌, ◌*◌, ◌/◌, ◌%◌, ◌^◌, ◌≤◌, ◌<◌, min, String, ◌≡◌, refl, sym, ap, subst, ◌∙◌,
  ◌≢◌, ◌↔◌, ◌⊎◌, inl, inr, Bool, true, false, not, ◌&&◌, ◌||◌, Option, none, some, List, [], ◌∷◌,
  ◌++◌, map, append-nil, append_assoc, arith, ltb, leb, ◌==◌, if◌then◌else◌, ltb→lt, lt→ltb, leb→le,
  le→leb, ==_iff, Bool-cases, Option-cases, length, is_empty, get_elem?, take, drop, replicate, any,
  all, All, length-append, take-append-drop, length-take, length-drop, take-append, drop-append,
  drop-drop, length-replicate, get_elem?-append_front, get_elem?-append_behind, ◌⊖◌, ◌+ℤ◌,
  shift_right_8, quarter, ℤ, pos, negsuc, ==ℤ_iff, ◌==ℤ◌, to_decimal, to_string, Bytes, equal_iff,
  equal_self, starts_with-drop, starts_with-append, find-split, find-starts_with, find-append,
  find_index-none, find_index-some, find_index-all, find_index-append, bytes, equal, starts_with,
  find, find_index,
}
use vcames.Common.Partial.{◌>>=◌}
use vcames.Jpeg.{Dimensions, not_jpeg, no_dimensions, dimensions, read_jpeg_dimensions}
use vcames.Image.{
  Floats, TransformOptions, ImageError, no_output, input_too_large, not_a_jpeg, no_size,
  too_many_pixels, decode_failed, bad_scale, encode_failed, bad_jpeg_to_nv21, max_pixels,
  is_at_most_zero, is_negative, is_odd, to_size, is_right_angle, Geometry, scale_of, oriented_width,
  oriented_height,
}
use vcames.Image.Gather.{grid}
use vcames.Image.Stb.{Decoded, Stb, Sized, sized, encode}
use vcames.Image.Nv21.{geometry_of}
use vcames.Image.Rgb.{bytes_of, luma_of, u_of, v_of, mean_of, sample_pixel}

-- The checks that come before the decoding, and the size that the header declares.
unfoldable pub declared_size : Bytes → Option ((ℕ × ℕ) ⊎ ImageError)
declared_size input =
    if ltb (2 ^ 31 - 1) (length input)
    then some (inr input_too_large)
    else elim (read_jpeg_dimensions input) [
      | none ↦ none
      | some not_jpeg ↦ some (inr not_a_jpeg)
      | some no_dimensions ↦ some (inr no_size)
      | some (dimensions width height) ↦
          if ltb 3840 width || ltb 2160 height || ltb max_pixels (width * height)
          then some (inr too_many_pixels)
          else some (inl (width, height))
    ]

abbrev pub has_bad_options : TransformOptions → Bool
has_bad_options options =
    is_at_most_zero options.width
    || is_at_most_zero options.height
    || is_odd options.width
    || is_odd options.height
    || not (is_right_angle options.rotation)

abbrev pub has_size : Decoded → ℕ → ℕ → Bool
has_size d width height = d.decoded_width ==ℤ pos width && d.decoded_height ==ℤ pos height

module _ {ℓ} {Float : Type ℓ} (floats : Floats Float) where
  abbrev pub luma_pixel : Bytes → Geometry → ℕ → ℕ → Option Bytes
  luma_pixel image g x y = do c ← sample_pixel floats image g x y; some (luma_of c ∷ [])

  -- The pair of a square of four pixels.
  abbrev pub chroma_pair : Bytes → Geometry → ℕ → ℕ → Option Bytes
  chroma_pair image g x y = do
    a ← sample_pixel floats image g (x * 2) (y * 2)
    b ← sample_pixel floats image g (x * 2 + 1) (y * 2)
    c ← sample_pixel floats image g (x * 2) (y * 2 + 1)
    d ← sample_pixel floats image g (x * 2 + 1) (y * 2 + 1)
    some (
        mean_of (v_of a) (v_of b) (v_of c) (v_of d)
        ∷ mean_of (u_of a) (u_of b) (u_of c) (u_of d)
        ∷ [])

  -- The two loops over the output of `TransformJpegToNv21`.
  unfoldable pub render_nv21 : Bytes → Geometry → Option Bytes
  unfolding grid sample_pixel luma_of u_of v_of mean_of
  render_nv21 image g = do
    luma ← grid (luma_pixel image g) g.output_width g.output_height
    chroma ← grid (chroma_pair image g) (g.output_width / 2) (g.output_height / 2)
    some (luma ++ chroma)

  abbrev pub colour_bytes : Bytes → Geometry → ℕ → ℕ → Option Bytes
  colour_bytes image g x y = do c ← sample_pixel floats image g x y; some (bytes_of c)

  -- The loop over the output of `TransformJpeg`.
  unfoldable pub render_rgb : Bytes → Geometry → Option Bytes
  unfolding grid sample_pixel
  render_rgb image g = grid (colour_bytes image g) g.output_width g.output_height

  -- The end of `TransformJpegToNv21`, from the decoding on.
  unfoldable pub decode_to_nv21 : TransformOptions → Option Decoded → ℕ → ℕ → Option Sized
  unfolding render_nv21
  decode_to_nv21 options none width height = some (inr decode_failed)
  decode_to_nv21 options (some d) width height =
      if not (has_size d width height)
      then some (inr decode_failed)
      else (render_nv21 d.pixels (geometry_of d.decoded_width d.decoded_height options)
          >>= λ output. some (sized d output))

  -- `TransformJpegToNv21`; the flag is `output != nullptr`.
  unfoldable pub transform_jpeg_to_nv21 : Stb → Bool → Bytes → TransformOptions → Option Sized
  unfolding declared_size decode_to_nv21
  transform_jpeg_to_nv21 stb given input options =
      if not given || has_bad_options options
      then some (inr bad_jpeg_to_nv21)
      else (declared_size input >>= λ declared. elim declared [
        | inr why ↦ some (inr why)
        | inl (width, height) ↦ decode_to_nv21 options (stb.load input) width height
      ])

  abbrev pub is_unchanged : Decoded → TransformOptions → Bool
  is_unchanged d options =
      options.rotation ==ℤ pos 0
      && not options.mirror
      && options.width ==ℤ d.decoded_width
      && options.height ==ℤ d.decoded_height

  -- A negative size asks for more memory than there is.
  unfoldable pub render_jpeg : Stb → Decoded → TransformOptions → Option Sized
  unfolding render_rgb encode
  render_jpeg stb d options =
      if is_negative options.width || is_negative options.height
      then none
      else (render_rgb d.pixels (geometry_of d.decoded_width d.decoded_height options) >>= λ pixels.
          elim (encode stb encode_failed options.width options.height pixels options.jpeg_quality) [
            | inl output ↦ some (sized d output)
            | inr why ↦ some (inr why)
          ])

  abbrev pub scale_for : Decoded → TransformOptions → Float
  scale_for d options =
      let g = geometry_of d.decoded_width d.decoded_height options in
      scale_of floats options.width options.height (oriented_width g) (oriented_height g)

  -- The end of `TransformJpeg`, from the decoding on.
  unfoldable pub decode_to_jpeg : Stb → Bytes → TransformOptions → Option Decoded → Option Sized
  unfolding render_jpeg scale_of
  decode_to_jpeg stb input options none = some (inr decode_failed)
  decode_to_jpeg stb input options (some d) =
      if is_at_most_zero d.decoded_width || is_at_most_zero d.decoded_height
      then some (inr decode_failed)
      else if is_unchanged d options
      then some (sized d input)
      else if not (floats.is_finite (scale_for d options))
          || not (floats.is_positive (scale_for d options))
      then some (inr bad_scale)
      else render_jpeg stb d options

  -- `TransformJpeg`; the flag is `output != nullptr`.
  unfoldable pub transform_jpeg : Stb → Bool → Bytes → TransformOptions → Option Sized
  unfolding declared_size decode_to_jpeg
  transform_jpeg stb given input options =
      if not given
      then some (inr no_output)
      else (declared_size input >>= λ declared. elim declared [
        | inr why ↦ some (inr why)
        | inl _ ↦ decode_to_jpeg stb input options (stb.load input)
      ])
