-- ===== src/Image/FromJpeg/Video.antt =====
-- `TransformJpegToNv21` of daemon/src/image_transform.cpp: when it succeeds, and what it then leaves.
use vcames.Common.{
  ℕ, ◌-◌, ◌*◌, ◌^◌, ◌≤◌, ◌<◌, ◌≡◌, refl, ◌↔◌, ◌⊎◌, inl, inr, Bool, true, false, not, ◌||◌, Option,
  none, some, arith, ltb, if◌then◌else◌, Bool-cases, length, All, pos, ==ℤ_iff, Bytes,
}
use vcames.Common.Partial.{◌>>=◌}
use vcames.Jpeg.{Dimensions, not_jpeg, no_dimensions, dimensions, read_jpeg_dimensions}
use vcames.Jpeg.Total.{IsByte, Is16Bit, read_jpeg_dimensions-ends}
use vcames.Image.{
  Floats, TransformOptions, ImageError, to_size, is_at_most_zero, is_odd, is_right_angle,
  max_pixels, bad_jpeg_to_nv21, decode_failed, not_a_jpeg, no_size, too_many_pixels,
}
use vcames.Image.Stb.{Decoded, Stb, Sized, sized}
use vcames.Image.Nv21.{geometry_of}
use vcames.Image.Nv21.Accepts.{IsEvenSize, even_size, above_not}
use vcames.Image.Rgb.Inside.{IsClamped, IsImage}
use vcames.Image.FromJpeg.{
  declared_size, has_bad_options, has_size, decode_to_nv21, transform_jpeg_to_nv21,
}
use vcames.Image.FromJpeg.Render.{IsVideo, render_nv21-IsVideo}

-- What stb_image documents: a decoded picture has its pixels, and no side above its limit.
abbrev pub DecodesWell : Stb → Type 0
DecodesWell stb =
    (input : Bytes) (d : Decoded) (width height : ℕ)
    → stb.load input ≡ some d
    → d.decoded_width ≡ pos width
    → d.decoded_height ≡ pos height
    → 0 < width
    → 0 < height
    → IsImage d.pixels width height

pub record IsOutput (options : TransformOptions) : Type 0 where
  pub width_even : IsEvenSize options.width
  pub height_even : IsEvenSize options.height
  pub right_angle : is_right_angle options.rotation ≡ true

-- The header declares a size within the limit.
pub record IsDeclared (input : Bytes) (width height : ℕ) : Type 0 where
  pub short : length input < 2 ^ 31
  pub header : read_jpeg_dimensions input ≡ some (dimensions width height)
  pub narrow : width ≤ 3840
  pub low : height ≤ 2160

-- The picture that is decoded has the declared size.
pub record IsLoaded (stb : Stb) (input : Bytes) (width height : ℕ) : Type 0 where
  pub picture : Decoded
  pub loaded : stb.load input ≡ some picture
  pub same_width : picture.decoded_width ≡ pos width
  pub same_height : picture.decoded_height ≡ pos height

has_bad_options_iff :
    (options : TransformOptions) → (has_bad_options options ≡ false) ↔ IsOutput options
has_bad_options_iff options = (
  λ h. record {
    width_even = (even_size options.width).0 (ground arith);
    height_even = (even_size options.height).0 (ground arith);
    right_angle = ground arith;
  },
  λ o.
      all_good ((even_size options.width).1 o.width_even)
        ((even_size options.height).1 o.height_even) o.right_angle,
)
  where
    all_good :
        is_at_most_zero options.width || is_odd options.width ≡ false
        → is_at_most_zero options.height || is_odd options.height ≡ false
        → is_right_angle options.rotation ≡ true
        → has_bad_options options ≡ false
    all_good p q r = ground arith

has_size_iff :
    (d : Decoded) (width height : ℕ)
    → (has_size d width height ≡ true)
      ↔ ((d.decoded_width ≡ pos width) × (d.decoded_height ≡ pos height))
has_size_iff d width height =
    ground (arith, ==ℤ_iff d.decoded_width (pos width), ==ℤ_iff d.decoded_height (pos height))

abbrev Declares : Bytes → Option ((ℕ × ℕ) ⊎ ImageError) → Type 0
Declares input none = ⊥
Declares input (some (inr why)) = Unit
Declares input (some (inl (width, height))) =
    (0 < width) × (0 < height) × IsDeclared input width height

Declares-if :
    (input : Bytes) (t : Bool) (x y : Option ((ℕ × ℕ) ⊎ ImageError))
    → (t ≡ true → Declares input x)
    → (t ≡ false → Declares input y)
    → Declares input (if t then x else y)
Declares-if input true x y a b = a refl
Declares-if input false x y a b = b refl

within_limits :
    (width height : ℕ)
    → ltb 3840 width || ltb 2160 height || ltb max_pixels (width * height) ≡ false
    → (width ≤ 3840) × (height ≤ 2160)
within_limits width height h = (ground arith, ground arith)

-- The declared size is known, or the header is refused.
declared_size-Declares : (input : Bytes) → All IsByte input → Declares input (declared_size input)
unfolding declared_size
declared_size-Declares input of_bytes =
    Declares-if input (ltb (2 ^ 31 - 1) (length input)) _ _ (λ _. tt)
      (λ short.
        let (d, is, small) = read_jpeg_dimensions-ends input of_bytes in
        rw is (by_header d is small (omega (arith, above_not _ _ short))))
  where
    by_header :
        (d : Dimensions)
        → read_jpeg_dimensions input ≡ some d
        → Is16Bit d
        → length input < 2 ^ 31
        → Declares input (elim (some d) [
          | none ↦ none
          | some not_jpeg ↦ some (inr not_a_jpeg)
          | some no_dimensions ↦ some (inr no_size)
          | some (dimensions width height) ↦
              if ltb 3840 width || ltb 2160 height || ltb max_pixels (width * height)
              then some (inr too_many_pixels)
              else some (inl (width, height))
        ])
    by_header not_jpeg is small short = tt
    by_header no_dimensions is small short = tt
    by_header (dimensions width height) is (wide, _, high, _) short =
        Declares-if input _ _ _ (λ _. tt)
          (λ limits.
            let (narrow, low) = within_limits width height limits in
            (wide, high, record { short = short; header = is; narrow = narrow; low = low }))

module _ {ℓ} {Float : Type ℓ} (floats : Floats Float) (clamped : IsClamped floats) (stb : Stb)
    (decodes : DecodesWell stb) (input : Bytes) (options : TransformOptions) where
  -- What a call leaves.
  abbrev pub Leaves : Bool → Sized → Type 0
  Leaves given (inr why) = Unit
  Leaves given (inl (output, source_width, source_height)) =
      (given ≡ true)
      × IsOutput options
      × ((width : ℕ) × (height : ℕ) × (source_width ≡ pos width)
          × (source_height ≡ pos height)
          × IsDeclared input width height
          × IsLoaded stb input width height)
      × IsVideo (to_size options.width) (to_size options.height) output

  decoded :
      (width height : ℕ)
      → IsOutput options
      → 0 < width
      → 0 < height
      → IsDeclared input width height
      → (o : Option Decoded) → stb.load input ≡ o
      → (r : Sized) × (decode_to_nv21 floats options o width height ≡ some r) × Leaves true r
  unfolding decode_to_nv21
  decoded width height output wide high declared none is = (inr decode_failed, refl, tt)
  decoded width height output wide high declared (some d) is =
      elim (Bool-cases (has_size d width height)) [
        | inr differs ↦ rw differs (inr decode_failed, refl, tt)
        | inl same ↦
            let (same_width, same_height) = (has_size_iff d width height).0 same in
            let image = decodes input d width height is same_width same_height wide high in
            let (picture, rendered, video) =
              render_nv21-IsVideo floats clamped d.pixels
                (geometry_of d.decoded_width d.decoded_height options)
                (rw (same_width, same_height) image) output.width_even.is_even
                output.height_even.is_even in
            (
              sized d picture,
              rw (same, rendered) refl,
              (
                refl,
                output,
                (
                  width,
                  height,
                  same_width,
                  same_height,
                  declared,
                  record {
                    picture = d;
                    loaded = is;
                    same_width = same_width;
                    same_height = same_height;
                  },
                ),
                video,
              ),
            )
      ]

  -- Whatever frame of bytes arrives, `TransformJpegToNv21` ends without a read outside its buffers. When
  -- it succeeds, the options name an even size and a right angle, the header declared the size of the
  -- decoded picture within the limit, that size is given, and the output is a packed NV21 image with luma
  -- from 16 to 235 and chroma from 16 to 240.
  pub transform_jpeg_to_nv21-Leaves :
      (given : Bool)
      → All IsByte input
      → (r : Sized) × (transform_jpeg_to_nv21 floats stb given input options ≡ some r)
        × Leaves given r
  unfolding transform_jpeg_to_nv21
  transform_jpeg_to_nv21-Leaves given of_bytes =
      elim (Bool-cases (not given || has_bad_options options)) [
        | inl refused ↦ rw refused (inr bad_jpeg_to_nv21, refl, tt)
        | inr good ↦
            let is_given : given ≡ true = ground arith in
            let output = (has_bad_options_iff options).0 (ground arith) in
            rw (good, is_given)
              (by_declared output (declared_size input) (declared_size-Declares input of_bytes))
      ]
    where
      by_declared :
          IsOutput options
          → (o : Option ((ℕ × ℕ) ⊎ ImageError)) → Declares input o
          → (r : Sized) × ((o >>= λ declared. elim declared [
            | inr why ↦ some (inr why)
            | inl (width, height) ↦ decode_to_nv21 floats options (stb.load input) width height
          ])
              ≡ some r)
            × Leaves true r
      by_declared output none never = absurd never
      by_declared output (some (inr why)) d = (inr why, refl, tt)
      by_declared output (some (inl (width, height))) (wide, high, declared) =
          decoded width height output wide high declared (stb.load input) refl
