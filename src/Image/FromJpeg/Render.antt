-- ===== src/Image/FromJpeg/Render.antt =====
-- The loops of `TransformJpegToNv21` of daemon/src/image_transform.cpp: their output, byte by byte.
use vcames.Common.{
  ℕ, ◌+◌, ◌*◌, ◌/◌, ◌%◌, ◌≤◌, ◌≡◌, refl, sym, subst, ◌∙◌, some, [], ◌∷◌, ◌++◌, arith, length, All,
  Bytes,
}
use vcames.Image.{Floats, Geometry}
use vcames.Image.Gather.{grid-IsFilled, grid-All}
use vcames.Image.Nv21.Copy.{half_of}
use vcames.Image.Rgb.{Colour, luma_of, sample_pixel}
use vcames.Image.Rgb.Range.{IsColour, luma_of-range, u_of-range, v_of-range, mean_of-range}
use vcames.Image.Rgb.Inside.{IsClamped, IsImage, sample_pixel-IsColour}
use vcames.Image.FromJpeg.{luma_pixel, chroma_pair, render_nv21}

abbrev pub InLuma : ℕ → Type 0
InLuma b = (16 ≤ b) × (b ≤ 235)

abbrev pub InChroma : ℕ → Type 0
InChroma b = (16 ≤ b) × (b ≤ 240)

-- A packed NV21 picture in the range of video.
pub record IsVideo (width height : ℕ) (output : Bytes) : Type 0 where
  pub luma : Bytes
  pub chroma : Bytes
  pub split : output ≡ luma ++ chroma
  pub luma_size : length luma ≡ width * height
  pub chroma_size : length chroma ≡ width * height / 2
  pub luma_range : All InLuma luma
  pub chroma_range : All InChroma chroma

module _ {ℓ} {Float : Type ℓ} (floats : Floats Float) (clamped : IsClamped floats) (image : Bytes)
    (g : Geometry) (is_image : IsImage image g.source_width g.source_height) where
  abbrev colour_at :
      (x y : ℕ) → (c : Colour) × (sample_pixel floats image g x y ≡ some c) × IsColour c
  colour_at = sample_pixel-IsColour floats clamped image g is_image

  luma_part :
      (x y : ℕ)
      → (b : Bytes) × (luma_pixel floats image g x y ≡ some b) × (length b ≡ 1) × All InLuma b
  luma_part x y =
      let (c, is, colour) = colour_at x y in
      rw is (luma_of c ∷ [], refl, refl, (luma_of-range c colour, tt))

  chroma_part :
      (x y : ℕ)
      → (b : Bytes) × (chroma_pair floats image g x y ≡ some b) × (length b ≡ 2) × All InChroma b
  chroma_part x y =
      let (a, a_is, a_in) = colour_at (x * 2) (y * 2) in
      let (b, b_is, b_in) = colour_at (x * 2 + 1) (y * 2) in
      let (c, c_is, c_in) = colour_at (x * 2) (y * 2 + 1) in
      let (d, d_is, d_in) = colour_at (x * 2 + 1) (y * 2 + 1) in
      rw (a_is, b_is, c_is, d_is)
        (
          _,
          refl,
          refl,
          (
            mean_of-range _ _ _ _ (v_of-range a a_in) (v_of-range b b_in) (v_of-range c c_in)
                (v_of-range d d_in),
            (
              mean_of-range _ _ _ _ (u_of-range a a_in) (u_of-range b b_in) (u_of-range c c_in)
                  (u_of-range d d_in),
              tt,
            ),
          ),
        )

  unsome : {a b : Bytes} → some a ≡ some b → a ≡ b
  unsome e = cc

  -- Of an even size, the loops end with a picture in the range of video.
  pub render_nv21-IsVideo :
      g.output_width % 2 ≡ 0
      → g.output_height % 2 ≡ 0
      → (output : Bytes) × (render_nv21 floats image g ≡ some output)
        × IsVideo g.output_width g.output_height output
  unfolding render_nv21
  render_nv21-IsVideo even_w even_h =
      let (luma, l) =
        grid-IsFilled (luma_pixel floats image g) 1 g.output_width g.output_height
          (λ x y _ _. let (b, is, size, _) = luma_part x y in (b, is, size)) in
      let (chroma, c) =
        grid-IsFilled (chroma_pair floats image g) 2 (g.output_width / 2) (g.output_height / 2)
          (λ x y _ _. let (b, is, size, _) = chroma_part x y in (b, is, size)) in
      (
        luma ++ chroma,
        rw (l.gathered, c.gathered) refl,
        record {
          luma = luma;
          chroma = chroma;
          split = refl;
          luma_size =
              let one : g.output_width * 1 ≡ g.output_width = omega arith in
              l.size ∙ rw one (omega arith);
          chroma_size =
              let pairs : g.output_width / 2 * 2 ≡ g.output_width = omega (arith, even_w) in
              c.size ∙ rw pairs (omega (arith, half_of g.output_width g.output_height even_h));
          luma_range =
              grid-All InLuma (luma_pixel floats image g) g.output_width g.output_height luma
                (λ x y b e.
                  let (b', is, _, range) = luma_part x y in
                  subst (All InLuma) (unsome (sym is ∙ e)) range)
                l.gathered;
          chroma_range =
              grid-All InChroma (chroma_pair floats image g) (g.output_width / 2)
                (g.output_height / 2) chroma
                (λ x y b e.
                  let (b', is, _, range) = chroma_part x y in
                  subst (All InChroma) (unsome (sym is ∙ e)) range)
                c.gathered;
        },
      )
