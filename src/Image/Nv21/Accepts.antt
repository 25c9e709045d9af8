-- ===== src/Image/Nv21/Accepts.antt =====
-- `TransformNv21` of daemon/src/image_transform.cpp: which images and options it takes.
use vcames.Common.{
  ℕ, ◌*◌, ◌/◌, ◌%◌, ◌≤◌, ◌<◌, ◌≡◌, refl, ◌∙◌, ◌↔◌, inl, inr, Bool, true, false, not, ◌||◌, some,
  arith, ltb, ◌==◌, if◌then◌else◌, ==_iff, Bool-cases, length, ℤ, pos, negsuc, Bytes,
}
use vcames.Image.{
  Floats, TransformOptions, Transformed, refuse, odd_nv21, bad_nv21_size, bad_nv21_rotation,
  max_pixels, is_at_most_zero, is_odd, to_size, is_right_angle,
}
use vcames.Image.Nv21.{geometry_of, is_same, has_bad_size, copy_pixels, transform_nv21}
use vcames.Image.Nv21.Copy.{IsPacked, IsCopied, copy_pixels-IsCopied}

-- A size that an NV21 image can have.
pub record IsEvenSize (v : ℤ) : Type 0 where
  pub is_natural : v ≡ pos (to_size v)
  pub above : 0 < to_size v
  pub is_even : to_size v % 2 ≡ 0

pub record IsTransformable (input : Bytes) (source_width source_height : ℤ)
    (options : TransformOptions) : Type 0 where
  pub source_width_even : IsEvenSize source_width
  pub source_height_even : IsEvenSize source_height
  pub width_even : IsEvenSize options.width
  pub height_even : IsEvenSize options.height
  pub bounded : to_size source_width * to_size source_height ≤ max_pixels
  pub packed : length input ≡ to_size source_width * to_size source_height * 3 / 2
  pub right_angle : is_right_angle options.rotation ≡ true

pub even_size : (v : ℤ) → (is_at_most_zero v || is_odd v ≡ false) ↔ IsEvenSize v
even_size (pos n) = (
  λ h. record { is_natural = refl; above = ground arith; is_even = ground arith },
  λ e. let a = e.above in let b = e.is_even in ground arith,
)
even_size (negsuc n) = (λ h. cc, λ e. let a = e.is_natural in cc)

has_bad_size_iff :
    (source_width source_height : ℤ) (options : TransformOptions)
    → (has_bad_size source_width source_height options ≡ false) ↔ (
        IsEvenSize source_width
        × IsEvenSize source_height
        × IsEvenSize options.width
        × IsEvenSize options.height)
has_bad_size_iff source_width source_height options = (
  λ h. (
    (even_size source_width).0 (ground arith),
    (even_size source_height).0 (ground arith),
    (even_size options.width).0 (ground arith),
    (even_size options.height).0 (ground arith),
  ),
  λ (sw, sh, w, h).
      no_bad_size ((even_size source_width).1 sw) ((even_size source_height).1 sh)
        ((even_size options.width).1 w) ((even_size options.height).1 h),
)
  where
    no_bad_size :
        is_at_most_zero source_width || is_odd source_width ≡ false
        → is_at_most_zero source_height || is_odd source_height ≡ false
        → is_at_most_zero options.width || is_odd options.width ≡ false
        → is_at_most_zero options.height || is_odd options.height ≡ false
        → has_bad_size source_width source_height options ≡ false
    no_bad_size p q r t = ground arith

pub not_above : (a b : ℕ) → b ≤ a → ltb a b ≡ false
not_above a b h = ground arith

pub above_not : (a b : ℕ) → ltb a b ≡ false → b ≤ a
above_not a b h = ground arith

passed_checks :
    (given bad large packed right : Bool) (rest : Transformed) (output : Bytes)
    → (if not given || bad
        then refuse odd_nv21
        else if large || not packed
        then refuse bad_nv21_size
        else if not right
        then refuse bad_nv21_rotation
        else rest)
      ≡ some (inl output)
    → (given ≡ true) × (bad ≡ false) × (large ≡ false) × (packed ≡ true) × (right ≡ true)
passed_checks given bad large packed right rest output h = ground arith

geometry_of-IsPacked :
    (input : Bytes) (source_width source_height : ℤ) (options : TransformOptions)
    → IsTransformable input source_width source_height options
    → IsPacked (geometry_of source_width source_height options) input
geometry_of-IsPacked input source_width source_height options t = record {
  wide = t.source_width_even.above;
  high = t.source_height_even.above;
  even_source_width = t.source_width_even.is_even;
  even_source_height = t.source_height_even.is_even;
  even_output_width = t.width_even.is_even;
  even_output_height = t.height_even.is_even;
  packed = t.packed;
}

module _ {ℓ} {Float : Type ℓ} (floats : Floats Float) (input : Bytes)
    (source_width source_height : ℤ) (options : TransformOptions) where
  passes :
      IsTransformable input source_width source_height options
      → transform_nv21 floats true input source_width source_height options ≡ (
          if is_same source_width source_height options
          then some (inl input)
          else copy_pixels floats input (geometry_of source_width source_height options))
  unfolding transform_nv21
  passes t =
      let sizes : has_bad_size source_width source_height options ≡ false =
        (has_bad_size_iff source_width source_height options).1
          (t.source_width_even, t.source_height_even, t.width_even, t.height_even) in
      let bounded : ltb max_pixels (to_size source_width * to_size source_height) ≡ false =
        not_above _ _ t.bounded in
      let packed : (length input == to_size source_width * to_size source_height * 3 / 2) ≡ true =
        (==_iff _ _).1 t.packed in
      rw (sizes, bounded, packed, t.right_angle) refl

  -- An image and options that pass the checks give an image: with nothing to change it is the input
  -- itself, and otherwise every byte of it is read inside the input, luma from the luma plane and each
  -- pair from a pair, at the place that the code computes, whatever the floating-point numbers do.
  pub transform_nv21-IsCopied :
      IsTransformable input source_width source_height options
      → (output : Bytes) × (transform_nv21 floats true input source_width source_height options
          ≡ some (inl output))
        × (is_same source_width source_height options ≡ true → output ≡ input)
        × (is_same source_width source_height options ≡ false
            → IsCopied floats input (geometry_of source_width source_height options) output)
  transform_nv21-IsCopied t = elim (Bool-cases (is_same source_width source_height options)) [
    | inl same ↦ (input, passes t ∙ rw same refl, λ _. refl, λ differs. cc)
    | inr differs ↦
        let (output, given, copied) =
          copy_pixels-IsCopied floats input (geometry_of source_width source_height options)
            (geometry_of-IsPacked input source_width source_height options t) in
        (output, passes t ∙ rw differs given, λ same. cc, λ _. copied)
  ]

  taken :
      (given : Bool) (output : Bytes)
      → transform_nv21 floats given input source_width source_height options ≡ some (inl output)
      → (given ≡ true) × IsTransformable input source_width source_height options
  unfolding transform_nv21
  taken given output h =
      let (is_given, sizes, bounded, packed, right) =
        passed_checks given (has_bad_size source_width source_height options)
          (ltb max_pixels (to_size source_width * to_size source_height))
          (length input == to_size source_width * to_size source_height * 3 / 2)
          (is_right_angle options.rotation) _ output h in
      let (source_width_even, source_height_even, width_even, height_even) =
        (has_bad_size_iff source_width source_height options).0 sizes in
      (
        is_given,
        record {
          source_width_even = source_width_even;
          source_height_even = source_height_even;
          width_even = width_even;
          height_even = height_even;
          bounded = above_not _ _ bounded;
          packed = (==_iff _ _).0 packed;
          right_angle = right;
        },
      )

  -- `TransformNv21` gives an image exactly when there is an output, the sizes are positive and even, the
  -- source is packed and within the limit, and the rotation is a right angle.
  pub transform_nv21_iff :
      (given : Bool)
      → ((output : Bytes) × (transform_nv21 floats given input source_width source_height options
            ≡ some (inl output)))
        ↔ ((given ≡ true) × IsTransformable input source_width source_height options)
  transform_nv21_iff given = (λ h. taken given h.0 h.1, λ h. rw h.0 (accepted h.1))
    where
      accepted :
          IsTransformable input source_width source_height options
          → (output : Bytes) × (transform_nv21 floats true input source_width source_height options
              ≡ some (inl output))
      accepted t = let (output, is, _, _) = transform_nv21-IsCopied t in (output, is)
