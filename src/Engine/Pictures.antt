-- ===== src/Engine/Pictures.antt =====
-- The frames of daemon/src/engine.cpp in the hands of daemon/src/image_transform.cpp.
mod Tests
use vcames.Common.{
  ℕ, zero, suc, ◌+◌, ◌-◌, ◌*◌, ◌/◌, ◌%◌, ◌^◌, ◌≤◌, ◌<◌, min, String, ◌≡◌, refl, sym, ap, subst, ◌∙◌,
  ◌≢◌, ◌↔◌, ◌⊎◌, inl, inr, Bool, true, false, not, ◌&&◌, ◌||◌, Option, none, some, List, [], ◌∷◌,
  ◌++◌, map, append-nil, append_assoc, arith, ltb, leb, ◌==◌, if◌then◌else◌, ltb→lt, lt→ltb, leb→le,
  le→leb, ==_iff, Bool-cases, Option-cases, length, is_empty, get_elem?, take, drop, replicate, any,
  all, All, length-append, take-append-drop, length-take, length-drop, take-append, drop-append,
  drop-drop, length-replicate, get_elem?-append_front, get_elem?-append_behind, ◌⊖◌, ◌+ℤ◌,
  shift_right_8, quarter, ℤ, pos, negsuc, ==ℤ_iff, ◌==ℤ◌, to_decimal, to_string, Bytes, equal_iff,
  equal_self, starts_with-drop, starts_with-append, find-split, find-starts_with, find-append,
  find_index-none, find_index-some, find_index-all, find_index-append, bytes, equal, starts_with,
  find, find_index,
}
use vcames.Config.{Config}
use vcames.Config.Valid.{IsValid}
use vcames.Engine.{Engine, is_nv21_size, is_valid_nv21, is_producer_active, push_nv21_frame}
use vcames.Image.{Floats, TransformOptions, nv21_encode_failed, is_right_angle, to_size}
use vcames.Image.Stb.{Stb, encode}
use vcames.Image.Nv21.{geometry_of, is_same, transform_nv21}
use vcames.Image.Nv21.Copy.{IsCopied}
use vcames.Image.Nv21.Accepts.{IsEvenSize, IsTransformable, transform_nv21-IsCopied}
use vcames.Image.ToJpeg.{nv21_to_jpeg}
use vcames.Image.ToJpeg.Encode.{IsEncodable, IsRgbOf, nv21_to_jpeg-IsRgbOf}

abbrev pub internal_jpeg_quality : ℤ
internal_jpeg_quality = pos 90

-- The options that `WriterLoop` makes of a configuration.
unfoldable pub options_of : Config → TransformOptions
options_of c = record {
  width = c.width;
  height = c.height;
  rotation = c.rotation;
  mirror = c.mirror;
  jpeg_quality = internal_jpeg_quality;
}

-- The size of the frames that pass `PushNv21Frame`.
accepted_size :
    (width height : ℤ) (size : ℕ)
    → is_valid_nv21 width height size ≡ true
    → IsEvenSize width
      × IsEvenSize height
      × (to_size width * to_size height ≤ 3840 * 2160)
      × (size ≡ to_size width * to_size height * 3 / 2)
unfolding is_valid_nv21 is_nv21_size
accepted_size (pos w) (pos h) size e = (
  record { is_natural = refl; above = ground arith; is_even = ground arith },
  record { is_natural = refl; above = ground arith; is_even = ground arith },
  ground arith,
  ground arith,
)
accepted_size (pos w) (negsuc h) size e = cc
accepted_size (negsuc w) _ size e = cc

-- A frame that is not refused has a valid size.
valid_size :
    (now : ℤ) (payload : Bytes) (width height time : ℤ) (e : Engine)
    → (push_nv21_frame now payload width height time e).error ≡ none
    → is_valid_nv21 width height (length payload) ≡ true
unfolding push_nv21_frame
valid_size now payload width height time e accepted = elim (Bool-cases (is_producer_active e)) [
  | inr idle ↦ cc (rw idle at accepted)
  | inl active ↦ elim (Bool-cases (is_valid_nv21 width height (length payload))) [
    | inl valid ↦ valid
    | inr invalid ↦ cc (rw (active, invalid) at accepted)
  ]
]

fixed_size : (v : ℤ) (n : ℕ) → v ≡ pos n → 0 < n → n % 2 ≡ 0 → IsEvenSize v
fixed_size v n e above is_even =
    rw e (record { is_natural = refl; above = above; is_even = is_even })

right_angle :
    (r : ℤ) → (r ≡ pos 0) ⊎ (r ≡ pos 90) ⊎ (r ≡ pos 180) ⊎ (r ≡ pos 270) → is_right_angle r ≡ true
unfolding ◌==ℤ◌
right_angle r (inl e) = rw e refl
right_angle r (inr (inl e)) = rw e refl
right_angle r (inr (inr (inl e))) = rw e refl
right_angle r (inr (inr (inr e))) = rw e refl

module _ (payload : Bytes) (width height : ℤ) (c : Config) (valid : IsValid c)
    (accepted : is_valid_nv21 width height (length payload) ≡ true) where
  frame-IsTransformable : IsTransformable payload width height (options_of c)
  unfolding options_of
  frame-IsTransformable =
      let (width_even, height_even, bounded, packed) =
        accepted_size width height (length payload) accepted in
      record {
        source_width_even = width_even;
        source_height_even = height_even;
        width_even = fixed_size c.width 1280 valid.width_fixed (omega arith) (omega arith);
        height_even = fixed_size c.height 720 valid.height_fixed (omega arith) (omega arith);
        bounded = bounded;
        packed = packed;
        right_angle = right_angle c.rotation valid.right_angle;
      }

  input_size : is_same width height (options_of c) ≡ true → (width ≡ pos 1280) × (height ≡ pos 720)
  unfolding options_of
  input_size e =
      let w : c.width ≡ width = (==ℤ_iff c.width width).0 (ground arith) in
      let h : c.height ≡ height = (==ℤ_iff c.height height).0 (ground arith) in
      (sym w ∙ valid.width_fixed, sym h ∙ valid.height_fixed)

  module _ {ℓ} {Float : Type ℓ} (floats : Floats Float) where
    picture_size :
        (picture : Bytes)
        → (is_same width height (options_of c) ≡ true → picture ≡ payload)
        → (is_same width height (options_of c) ≡ false
            → IsCopied floats payload (geometry_of width height (options_of c)) picture)
        → length picture ≡ 1280 * 720 * 3 / 2
    unfolding options_of
    picture_size picture same copied = elim (Bool-cases (is_same width height (options_of c))) [
      | inl e ↦
          let (w, h) = input_size e in
          let (_, _, _, packed) = accepted_size width height (length payload) accepted in
          rw (same e) (packed ∙ rw (w, h) refl)
      | inr e ↦ (copied e).size ∙ rw (valid.width_fixed, valid.height_fixed) refl
    ]

encodable :
    (picture : Bytes) (c : Config)
    → IsValid c
    → length picture ≡ 1280 * 720 * 3 / 2
    → IsEncodable picture c.width c.height internal_jpeg_quality
encodable picture c valid size = record {
  width_even = fixed_size c.width 1280 valid.width_fixed (omega arith) (omega arith);
  height_even = fixed_size c.height 720 valid.height_fixed (omega arith) (omega arith);
  good_quality = refl;
  bounded =
      let area : to_size c.width * to_size c.height ≡ 1280 * 720 =
        rw (valid.width_fixed, valid.height_fixed) refl in
      omega (arith, area);
  size = size ∙ sym (rw (valid.width_fixed, valid.height_fixed) refl);
}

fixed_rgb :
    (picture rgb : Bytes) (c : Config)
    → IsValid c
    → IsRgbOf picture (to_size c.width) (to_size c.height) rgb
    → IsRgbOf picture 1280 720 rgb
fixed_rgb picture rgb c valid r =
    subst (λ h. IsRgbOf picture 1280 (to_size h) rgb) valid.height_fixed
      (subst (λ w. IsRgbOf picture (to_size w) (to_size c.height) rgb) valid.width_fixed r)

-- While an engine has a valid configuration, every NV21 frame that `PushNv21Frame` accepts is turned into
-- a picture by `TransformNv21` with the options of the writer, whatever the floating-point numbers do, and
-- `Nv21ToJpeg` then hands all of it to the encoder, 1280 by 720 pixels: neither step refuses the frame.
pub push_nv21_frame-transforms {ℓ} :
    {Float : Type ℓ} (floats : Floats Float) (stb : Stb) (now : ℤ) (payload : Bytes)
    (width height time : ℤ) (e : Engine)
    → IsValid e.config
    → (push_nv21_frame now payload width height time e).error ≡ none
    → (picture : Bytes) × (rgb : Bytes) × (transform_nv21 floats true payload width height
          (options_of e.config)
        ≡ some (inl picture))
      × (nv21_to_jpeg stb true picture e.config.width e.config.height internal_jpeg_quality
          ≡ some (
              encode stb nv21_encode_failed e.config.width e.config.height rgb
                internal_jpeg_quality))
      × IsRgbOf picture 1280 720 rgb
push_nv21_frame-transforms floats stb now payload width height time e valid not_refused =
    let accepted = valid_size now payload width height time e not_refused in
    let (picture, is, same, copied) =
      transform_nv21-IsCopied floats payload width height (options_of e.config)
        (frame-IsTransformable payload width height e.config valid accepted) in
    let size =
      picture_size payload width height e.config valid accepted floats picture same copied in
    let (rgb, encoded, r) =
      nv21_to_jpeg-IsRgbOf picture e.config.width e.config.height internal_jpeg_quality stb
        (encodable picture e.config valid size) in
    (picture, rgb, is, encoded, fixed_rgb picture rgb e.config valid r)
