-- ===== src/Image/ToJpeg/Encode.antt =====
-- `Nv21ToJpeg` of daemon/src/image_transform.cpp: the picture that it hands to the encoder.
use vcames.Common.{
  ℕ, ◌+◌, ◌*◌, ◌/◌, ◌%◌, ◌≤◌, ◌<◌, ◌≡◌, refl, subst, ◌∙◌, inl, inr, true, false, ◌||◌, some, arith,
  ◌==◌, ==_iff, Option-cases, length, get_elem?, All, ℤ, pos, negsuc, Bytes,
}
use vcames.Image.{max_pixels, to_size, is_at_most_zero, is_odd}
use vcames.Image.Gather.{in_row, grid-IsFilled, grid-All}
use vcames.Image.Stb.{Stb, encode, clamp_byte}
use vcames.Image.Nv21.{even}
use vcames.Image.Nv21.Copy.{half_of, get_elem?-inside}
use vcames.Image.Nv21.Accepts.{IsEvenSize, even_size, not_above}
use vcames.Image.Rgb.{bytes_of}
use vcames.Image.ToJpeg.{
  colour_of, colour_bytes, to_rgb, is_bad_quality, has_bad_parameters, nv21_to_jpeg,
}
use vcames.Image.{nv21_encode_failed}

clamp_byte-le : (v : ℤ) → clamp_byte v ≤ 255
unfolding clamp_byte
clamp_byte-le (pos n) = omega arith
clamp_byte-le (negsuc n) = omega arith

abbrev pub InByte : ℕ → Type 0
InByte b = b ≤ 255

colour_of-InByte : (luma v u : ℕ) → All InByte (bytes_of (colour_of luma v u))
unfolding colour_of
colour_of-InByte luma v u = (clamp_byte-le _, (clamp_byte-le _, (clamp_byte-le _, tt)))

unsome : {a b : Bytes} → some a ≡ some b → a ≡ b
unsome e = cc

-- A packed NV21 image.
pub record IsNv21 (input : Bytes) (width height : ℕ) : Type 0 where
  pub wide : 0 < width
  pub high : 0 < height
  pub even_width : width % 2 ≡ 0
  pub even_height : height % 2 ≡ 0
  pub packed : length input ≡ width * height * 3 / 2

-- The pixels of an NV21 image, three bytes for each, from its luma byte and its pair.
pub record IsRgbOf (input : Bytes) (width height : ℕ) (rgb : Bytes) : Type 0 where
  pub size : length rgb ≡ width * height * 3
  pub in_range : All InByte rgb
  pub pixel :
      (x y l : ℕ)
      → x < width
      → y < height
      → l < 3
      → (luma : ℕ) × (v : ℕ) × (u : ℕ) × (get_elem? input (y * width + x) ≡ some luma)
        × (get_elem? input (width * height + (y / 2 * width + x / 2 * 2)) ≡ some v)
        × (get_elem? input (width * height + (y / 2 * width + x / 2 * 2) + 1) ≡ some u)
        × (get_elem? rgb ((y * width + x) * 3 + l) ≡ get_elem? (bytes_of (colour_of luma v u)) l)

module _ (input : Bytes) (width height : ℕ) (image : IsNv21 input width height) where
  read_pixel :
      (x y : ℕ)
      → x < width
      → y < height
      → (luma : ℕ) × (v : ℕ) × (u : ℕ) × (get_elem? input (y * width + x) ≡ some luma)
        × (get_elem? input (width * height + (y / 2 * width + even x)) ≡ some v)
        × (get_elem? input (width * height + (y / 2 * width + even x) + 1) ≡ some u)
  read_pixel x y left below =
      let row : y / 2 < height / 2 = omega (arith, image) in
      let last : even x + 1 < width = omega (arith, image) in
      let area = half_of width height image.even_height in
      let fits = in_row (y / 2) (height / 2) width (even x + 1) row last in
      let (luma, luma_is) =
        get_elem?-inside input (y * width + x)
          (omega (arith, image.packed, in_row y height width x below left)) in
      let (v, v_is) =
        get_elem?-inside input (width * height + (y / 2 * width + even x))
          (omega (arith, image.packed, area, fits)) in
      let (u, u_is) =
        get_elem?-inside input (width * height + (y / 2 * width + even x) + 1)
          (omega (arith, image.packed, area, fits)) in
      (luma, v, u, luma_is, v_is, u_is)

  part_in_range :
      (x y : ℕ) (b : Bytes) → colour_bytes input width height x y ≡ some b → All InByte b
  part_in_range x y b e = elim (Option-cases (get_elem? input (y * width + x))) [
    | inl missing ↦ cc (rw missing at e)
    | inr (luma, luma_is) ↦
        elim (Option-cases (get_elem? input (width * height + (y / 2 * width + even x)))) [
          | inl missing ↦ cc (rw (luma_is, missing) at e)
          | inr (v, v_is) ↦
              elim (Option-cases
                (get_elem? input (width * height + (y / 2 * width + even x) + 1))) [
                  | inl missing ↦ cc (rw (luma_is, v_is, missing) at e)
                  | inr (u, u_is) ↦
                      subst (All InByte) (unsome (rw (luma_is, v_is, u_is) at e))
                        (colour_of-InByte luma v u)
                ]
        ]
  ]

  to_rgb-IsRgbOf :
      (rgb : Bytes) × (to_rgb input width height ≡ some rgb) × IsRgbOf input width height rgb
  unfolding to_rgb
  to_rgb-IsRgbOf =
      let (rgb, g) =
        grid-IsFilled (colour_bytes input width height) 3 width height (λ x y left below.
          let (luma, v, u, luma_is, v_is, u_is) = read_pixel x y left below in
          (bytes_of (colour_of luma v u), rw (luma_is, v_is, u_is) refl, refl)) in
      (
        rgb,
        g.gathered,
        record {
          size = g.size ∙ omega arith;
          in_range =
              grid-All InByte (colour_bytes input width height) width height rgb
                (λ x y b e. part_in_range x y b e) g.gathered;
          pixel = λ x y l left below inside.
              let (luma, v, u, luma_is, v_is, u_is) = read_pixel x y left below in
              let even_is : x / 2 * 2 ≡ even x = omega arith in
              let at : (y * width + x) * 3 + l ≡ y * (width * 3) + (x * 3 + l) = omega arith in
              (
                luma,
                v,
                u,
                luma_is,
                rw even_is v_is,
                rw even_is u_is,
                rw at (
                    g.places x y l (bytes_of (colour_of luma v u)) left below inside
                      (rw (luma_is, v_is, u_is) refl)),
              );
        },
      )

pub record IsEncodable (input : Bytes) (width height quality : ℤ) : Type 0 where
  pub width_even : IsEvenSize width
  pub height_even : IsEvenSize height
  pub good_quality : is_bad_quality quality ≡ false
  pub bounded : to_size width * to_size height ≤ max_pixels
  pub size : length input ≡ to_size width * to_size height * 3 / 2

module _ (input : Bytes) (width height quality : ℤ) where
  good_parameters :
      IsEncodable input width height quality → has_bad_parameters width height quality ≡ false
  good_parameters t =
      all_good ((even_size width).1 t.width_even) ((even_size height).1 t.height_even)
        t.good_quality
    where
      all_good :
          is_at_most_zero width || is_odd width ≡ false
          → is_at_most_zero height || is_odd height ≡ false
          → is_bad_quality quality ≡ false
          → has_bad_parameters width height quality ≡ false
      all_good p q r = ground arith

  -- A packed NV21 image within the limit, of an even size, is handed to the encoder whole: three bytes
  -- for each pixel, from its luma byte and the pair of its square, with the quality as it was given.
  pub nv21_to_jpeg-IsRgbOf :
      (stb : Stb)
      → IsEncodable input width height quality
      → (rgb : Bytes) × (nv21_to_jpeg stb true input width height quality
          ≡ some (encode stb nv21_encode_failed width height rgb quality))
        × IsRgbOf input (to_size width) (to_size height) rgb
  unfolding nv21_to_jpeg
  nv21_to_jpeg-IsRgbOf stb t =
      let image : IsNv21 input (to_size width) (to_size height) = record {
        wide = t.width_even.above;
        high = t.height_even.above;
        even_width = t.width_even.is_even;
        even_height = t.height_even.is_even;
        packed = t.size;
      } in
      let (rgb, is, r) = to_rgb-IsRgbOf input (to_size width) (to_size height) image in
      let packed : (length input == to_size width * to_size height * 3 / 2) ≡ true =
        (==_iff _ _).1 t.size in
      (rgb, rw (good_parameters t, not_above _ _ t.bounded, packed, is) refl, r)
