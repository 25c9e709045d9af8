-- ===== src/Image/Tests.antt =====
-- daemon/src/image_transform.cpp on small pictures, with the theorems at them.
use vcames.Common.{
  ℕ, ◌%◌, ◌<◌, ◌≡◌, refl, ◌↔◌, inl, true, false, some, [], ◌∷◌, arith, any, All, ◌⊖◌, ◌+ℤ◌, pos,
  ◌==ℤ◌, Bytes,
}
use vcames.Image.{map_output_to_source, clamp_index, wrap_int, TransformOptions, nv21_encode_failed}
use vcames.Image.Stb.{Decoded, Stb, Sized, encode}
use vcames.Image.Nv21.{luma_place, chroma_place, geometry_of, is_same, transform_nv21}
use vcames.Image.Nv21.Copy.{IsCopied}
use vcames.Image.Nv21.Accepts.{
  IsEvenSize, IsTransformable, transform_nv21-IsCopied, transform_nv21_iff,
}
use vcames.Image.Nv21.Turn.{IsTurned, turn_options}
use vcames.Image.Nv21.Turned.{transform_nv21-IsTurned}
use vcames.Image.Halves.{halves_of, halves_of-IsExact, halves_of-IsClamped}
use vcames.Image.FromJpeg.{transform_jpeg_to_nv21}
use vcames.Image.FromJpeg.Video.{DecodesWell, Leaves, transform_jpeg_to_nv21-Leaves}
use vcames.Image.ToJpeg.{nv21_to_jpeg}
use vcames.Image.ToJpeg.Encode.{IsEncodable, IsRgbOf, nv21_to_jpeg-IsRgbOf}
use vcames.Jpeg.{read_jpeg_dimensions}
use vcames.Jpeg.Total.{IsByte}

-- Four pixels by two, and its two pairs.
abbrev picture : Bytes
picture = 11 ∷ 12 ∷ 13 ∷ 14 ∷ 21 ∷ 22 ∷ 23 ∷ 24 ∷ 51 ∷ 61 ∷ 52 ∷ 62 ∷ []

turned_picture :
    transform_nv21 halves_of true picture (pos 4) (pos 2) (turn_options 1 false 4 2 (pos 90))
    ≡ some (inl (21 ∷ 11 ∷ 22 ∷ 12 ∷ 23 ∷ 13 ∷ 24 ∷ 14 ∷ 51 ∷ 61 ∷ 52 ∷ 62 ∷ []))
unfolding transform_nv21 ◌==ℤ◌ luma_place clamp_index wrap_int map_output_to_source ◌+ℤ◌
    chroma_place
turned_picture = refl

scaled_picture :
    transform_nv21 halves_of true picture (pos 4) (pos 2) (record {
      width = pos 2;
      height = pos 2;
      rotation = pos 0;
      mirror = true;
      jpeg_quality = pos 90;
    })
    ≡ some (inl (13 ∷ 12 ∷ 23 ∷ 22 ∷ 52 ∷ 62 ∷ []))
unfolding transform_nv21 ◌==ℤ◌ luma_place clamp_index wrap_int map_output_to_source ◌+ℤ◌
    chroma_place
scaled_picture = refl

pos-IsEvenSize : (n : ℕ) → 0 < n → n % 2 ≡ 0 → IsEvenSize (pos n)
pos-IsEvenSize n above even = record { is_natural = refl; above = above; is_even = even }

abbrev options : TransformOptions
options = turn_options 1 true 4 2 (pos 90)

picture-IsTransformable : IsTransformable picture (pos 4) (pos 2) options
unfolding ◌==ℤ◌
picture-IsTransformable = record {
  source_width_even = pos-IsEvenSize 4 (omega arith) refl;
  source_height_even = pos-IsEvenSize 2 (omega arith) refl;
  width_even = pos-IsEvenSize 2 (omega arith) refl;
  height_even = pos-IsEvenSize 4 (omega arith) refl;
  bounded = omega arith;
  packed = refl;
  right_angle = refl;
}

transform_nv21-IsCopied_example :
    (output : Bytes) × (transform_nv21 halves_of true picture (pos 4) (pos 2) options
      ≡ some (inl output))
    × (is_same (pos 4) (pos 2) options ≡ true → output ≡ picture)
    × (is_same (pos 4) (pos 2) options ≡ false
        → IsCopied halves_of picture (geometry_of (pos 4) (pos 2) options) output)
transform_nv21-IsCopied_example =
    transform_nv21-IsCopied halves_of picture (pos 4) (pos 2) options picture-IsTransformable

transform_nv21_iff_example :
    ((output : Bytes) × (transform_nv21 halves_of true picture (pos 4) (pos 2) options
        ≡ some (inl output)))
    ↔ ((true ≡ true) × IsTransformable picture (pos 4) (pos 2) options)
transform_nv21_iff_example = transform_nv21_iff halves_of picture (pos 4) (pos 2) options true

transform_nv21-IsTurned_example :
    (output : Bytes) × (transform_nv21 halves_of true picture (pos 4) (pos 2) options
      ≡ some (inl output))
    × IsTurned 1 true 4 2 picture output
transform_nv21-IsTurned_example =
    transform_nv21-IsTurned halves_of picture true 4 2 (pos 90) ◌⊖◌ halves_of-IsExact 1
      (omega arith) picture-IsTransformable

-- A header of two pixels by two.
abbrev frame : Bytes
frame = 0xff ∷ 0xd8 ∷ 0xff ∷ 0xc0 ∷ 0 ∷ 7 ∷ 8 ∷ 0 ∷ 2 ∷ 0 ∷ 2 ∷ []

abbrev decoded_frame : Decoded
decoded_frame = record {
  pixels = 255 ∷ 0 ∷ 0 ∷ 0 ∷ 0 ∷ 255 ∷ 0 ∷ 0 ∷ 255 ∷ 255 ∷ 0 ∷ 0 ∷ [];
  decoded_width = pos 2;
  decoded_height = pos 2;
}

abbrev stb : Stb
stb = record { load = λ _. some decoded_frame; write_jpg = λ w h p q. ((1 ∷ []) ∷ p ∷ [], true) }

stb-DecodesWell : DecodesWell stb
stb-DecodesWell input d width height is same_width same_height wide high =
    let is_frame : decoded_frame ≡ d = cc in
    let w : 2 ≡ width = cc in
    let h : 2 ≡ height = cc in
    rw (← is_frame, ← w, ← h)
      (record {
        wide = omega arith;
        high = omega arith;
        width_small = omega arith;
        height_small = omega arith;
        three_channels = refl;
      })

abbrev square : TransformOptions
square = record {
  width = pos 2;
  height = pos 2;
  rotation = pos 0;
  mirror = false;
  jpeg_quality = pos 90;
}

rendered :
    transform_jpeg_to_nv21 halves_of stb true frame square
    ≡ some (inl (82 ∷ 41 ∷ 41 ∷ 82 ∷ 175 ∷ 165 ∷ [], pos 2, pos 2))
unfolding transform_jpeg_to_nv21 ◌==ℤ◌ read_jpeg_dimensions any clamp_index map_output_to_source
rendered = refl

frame_bytes : All IsByte frame
frame_bytes = ground arith

transform_jpeg_to_nv21-Leaves_example :
    (r : Sized) × (transform_jpeg_to_nv21 halves_of stb true frame square ≡ some r)
    × Leaves halves_of halves_of-IsClamped stb stb-DecodesWell frame square true r
transform_jpeg_to_nv21-Leaves_example =
    transform_jpeg_to_nv21-Leaves halves_of halves_of-IsClamped stb stb-DecodesWell frame square
      true frame_bytes

picture-IsEncodable : IsEncodable picture (pos 4) (pos 2) (pos 90)
picture-IsEncodable = record {
  width_even = pos-IsEvenSize 4 (omega arith) refl;
  height_even = pos-IsEvenSize 2 (omega arith) refl;
  good_quality = refl;
  bounded = omega arith;
  size = refl;
}

nv21_to_jpeg-IsRgbOf_example :
    (rgb : Bytes) × (nv21_to_jpeg stb true picture (pos 4) (pos 2) (pos 90)
      ≡ some (encode stb nv21_encode_failed (pos 4) (pos 2) rgb (pos 90)))
    × IsRgbOf picture 4 2 rgb
nv21_to_jpeg-IsRgbOf_example =
    nv21_to_jpeg-IsRgbOf picture (pos 4) (pos 2) (pos 90) stb picture-IsEncodable
