-- ===== src/Image/Nv21/Turned.antt =====
-- `TransformNv21` of daemon/src/image_transform.cpp: the output as a turned and mirrored picture.
use vcames.Common.{
  ℕ, zero, suc, ◌+◌, ◌*◌, ◌/◌, ◌%◌, ◌≤◌, ◌<◌, ◌≡◌, refl, sym, ap, subst, ◌∙◌, inl, inr, Bool, true,
  false, some, arith, Bool-cases, get_elem?, ℤ, pos, ◌==ℤ◌, Bytes,
}
use native.Mathlib.Nat.{mul-le-mul_left}
use vcames.Image.{Floats, max_pixels}
use vcames.Image.Nv21.{is_same, transform_nv21}
use vcames.Image.Nv21.Copy.{IsCopied}
use vcames.Image.Nv21.Accepts.{IsTransformable, transform_nv21-IsCopied}
use vcames.Image.Nv21.Exact.{IsExact, exact_limit}
use vcames.Image.Nv21.Turn.{turn_options, IsTurned}
use vcames.Image.Nv21.Found.{
  turned_geometry, to, pair_to, IsFound, unturned-IsFound, quarter-IsFound, half_turn-IsFound,
  three_quarters-IsFound,
}

-- The sides of a picture within the limit.
small_side : (w h : ℕ) → 0 < h → h % 2 ≡ 0 → w * h ≤ max_pixels → w * 3 ≤ exact_limit
small_side w h high even_h bounded =
    let two : 2 ≤ h = omega (arith, high, even_h) in omega (arith, bounded, mul-le-mul_left w two)

module _ {ℓ} {Float : Type ℓ} (floats : Floats Float) (input : Bytes) (mirror : Bool) (w h : ℕ)
    (quality : ℤ) where
  copied-IsTurned :
      (quarters : ℕ) (output : Bytes)
      → IsFound floats mirror w h quality quarters
      → IsCopied floats input (turned_geometry floats mirror w h quality quarters) output
      → IsTurned quarters mirror w h input output
  copied-IsTurned quarters output f c = record {
    luma = λ x y left below.
        let at = to floats mirror w h quality quarters x y in
        let (x_in, y_in) = f.inside x y left below in
        ap (λ width. get_elem? output (at.y * width + at.x)) (f.width_is x y)
        ∙ c.luma at.x at.y x_in y_in
        ∙ ap (get_elem? input) (f.luma_found x y left below);
    chroma = λ x y left below.
        let at = pair_to floats mirror w h quality quarters x y in
        let (x_in, y_in) = f.pair_inside x y left below in
        let (v, u) = c.chroma at.x at.y x_in y_in in
        let g = turned_geometry floats mirror w h quality quarters in
        let place_is : w * h + (at.y * (at.width * 2) + at.x * 2)
            ≡ g.output_width * g.output_height + (at.y * g.output_width + at.x * 2) =
          ap (λ area. area + (at.y * (at.width * 2) + at.x * 2)) (sym f.area)
          ∙ ap (λ width. g.output_width * g.output_height + (at.y * width + at.x * 2))
              (f.pair_width_is x y) in
        (
          ap (get_elem? output) place_is ∙ v ∙ ap (get_elem? input) (f.chroma_found x y left below),
          ap (λ i. get_elem? output (i + 1)) place_is
              ∙ u
              ∙ ap (λ i. get_elem? input (i + 1)) (f.chroma_found x y left below),
        );
  }

  same-IsTurned : w % 2 ≡ 0 → IsTurned 0 false w h input input
  same-IsTurned even_w =
      let pairs : w / 2 * 2 ≡ w = omega (arith, even_w) in
      record { luma = λ x y _ _. refl; chroma = λ x y _ _. (rw pairs refl, rw pairs refl) }

  abbrev Gives : ℕ → Type 0
  Gives quarters =
      (output : Bytes) × (transform_nv21 floats true input (pos w) (pos h)
          (turn_options quarters mirror w h quality)
        ≡ some (inl output))
      × IsTurned quarters mirror w h input output

  turned_by :
      (quarters : ℕ)
      → IsTransformable input (pos w) (pos h) (turn_options quarters mirror w h quality)
      → IsFound floats mirror w h quality quarters
      → (is_same (pos w) (pos h) (turn_options quarters mirror w h quality) ≡ true
          → IsTurned quarters mirror w h input input)
      → Gives quarters
  turned_by quarters t f same =
      let (output, given, passed, copied) =
        transform_nv21-IsCopied floats input (pos w) (pos h)
          (turn_options quarters mirror w h quality) t in
      elim (Bool-cases (is_same (pos w) (pos h) (turn_options quarters mirror w h quality))) [
        | inl e ↦
            (output, given, subst (IsTurned quarters mirror w h input) (sym (passed e)) (same e))
        | inr e ↦ (output, given, copied-IsTurned quarters output f (copied e))
      ]

  unturned-IsTurned :
      is_same (pos w) (pos h) (turn_options 0 mirror w h quality) ≡ true
      → w % 2 ≡ 0
      → IsTurned 0 mirror w h input input
  unturned-IsTurned e even_w =
      let not_mirrored : mirror ≡ false = ground arith in
      subst (λ m. IsTurned 0 m w h input input) (sym not_mirrored) (same-IsTurned even_w)

  module _ (halves : ℕ → ℕ → Float) (exact : IsExact floats halves) where
    -- With floating-point numbers that are exact on halves, and an output as large as the turned source,
    -- `TransformNv21` gives the picture turned clockwise by its rotation and then mirrored: every luma
    -- byte and every pair of the source stands at its turned place.
    pub transform_nv21-IsTurned :
        (quarters : ℕ)
        → quarters ≤ 3
        → IsTransformable input (pos w) (pos h) (turn_options quarters mirror w h quality)
        → (output : Bytes) × (transform_nv21 floats true input
              (pos w)
              (pos h)
              (turn_options quarters mirror w h quality)
            ≡ some (inl output))
          × IsTurned quarters mirror w h input output
    unfolding ◌==ℤ◌
    transform_nv21-IsTurned quarters small t = by_quarters quarters small t
      where
        wide : 0 < w
        wide = t.source_width_even.above

        high : 0 < h
        high = t.source_height_even.above

        even_w : w % 2 ≡ 0
        even_w = t.source_width_even.is_even

        even_h : h % 2 ≡ 0
        even_h = t.source_height_even.is_even

        small_w : w * 3 ≤ exact_limit
        small_w = small_side w h high even_h t.bounded

        small_h : h * 3 ≤ exact_limit
        small_h = small_side h w wide even_w (omega (arith, t.bounded))

        by_quarters :
            (quarters : ℕ)
            → quarters ≤ 3
            → IsTransformable input (pos w) (pos h) (turn_options quarters mirror w h quality)
            → Gives quarters
        by_quarters zero l t =
            turned_by 0 t
              (unturned-IsFound floats mirror w h quality halves exact wide high even_w even_h
                small_w small_h)
              (λ e. unturned-IsTurned e even_w)
        by_quarters (suc zero) l t =
            turned_by 1 t
              (quarter-IsFound floats mirror w h quality halves exact wide high even_w even_h
                small_w small_h)
              (λ e. cc)
        by_quarters (suc (suc zero)) l t =
            turned_by 2 t
              (half_turn-IsFound floats mirror w h quality halves exact wide high even_w even_h
                small_w small_h)
              (λ e. cc)
        by_quarters (suc (suc (suc zero))) l t =
            turned_by 3 t
              (three_quarters-IsFound floats mirror w h quality halves exact wide high even_w even_h
                small_w small_h)
              (λ e. cc)
        by_quarters (suc (suc (suc (suc n)))) l t = absurd (omega (arith, l))
