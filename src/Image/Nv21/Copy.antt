-- ===== src/Image/Nv21/Copy.antt =====
-- The loops of `TransformNv21` of daemon/src/image_transform.cpp against the places that they read.
use vcames.Common.{
  ℕ, zero, suc, ◌+◌, ◌-◌, ◌*◌, ◌/◌, ◌%◌, ◌≤◌, ◌<◌, ◌≡◌, refl, ap, ◌∙◌, inl, some, [], ◌∷◌, ◌++◌,
  arith, length, get_elem?, length-append, get_elem?-append_front, get_elem?-append_behind, ℤ, pos,
  negsuc, Bytes,
}
use vcames.Image.{Floats, Geometry, clamp_index, wrap_int, map_output_to_source}
use vcames.Image.Gather.{in_row, PartOf, IsFilled, grid-IsFilled}
use vcames.Image.Nv21.{
  even, nearest, luma_place, chroma_place, luma_pixel, chroma_pair, copy_pixels,
}

-- The sizes that `TransformNv21` lets through, and a packed input.
pub record IsPacked (g : Geometry) (input : Bytes) : Type 0 where
  pub wide : 0 < g.source_width
  pub high : 0 < g.source_height
  pub even_source_width : g.source_width % 2 ≡ 0
  pub even_source_height : g.source_height % 2 ≡ 0
  pub even_output_width : g.output_width % 2 ≡ 0
  pub even_output_height : g.output_height % 2 ≡ 0
  pub packed : length input ≡ g.source_width * g.source_height * 3 / 2

clamp_index-le : (v : ℤ) (highest : ℕ) → clamp_index v highest ≤ highest
unfolding clamp_index
clamp_index-le (pos n) highest = omega arith
clamp_index-le (negsuc n) highest = omega arith

pub get_elem?-inside : (xs : Bytes) (i : ℕ) → i < length xs → (b : ℕ) × (get_elem? xs i ≡ some b)
get_elem?-inside [] i h = absurd (omega (arith, h))
get_elem?-inside (x ∷ xs) zero h = (x, refl)
get_elem?-inside (x ∷ xs) (suc i) h = get_elem?-inside xs i (omega (arith, h))

pub half_of : (w h : ℕ) → h % 2 ≡ 0 → w * h ≡ h / 2 * w + h / 2 * w
half_of w h even_h = let e : h ≡ h / 2 + h / 2 = omega (arith, even_h) in ap (◌*◌ w) e ∙ omega arith

module _ {ℓ} {Float : Type ℓ} (floats : Floats Float) (input : Bytes) (g : Geometry) where
  -- What the loops leave, for each pixel and each pair.
  pub record IsCopied (output : Bytes) : Type 0 where
    pub size : length output ≡ g.output_width * g.output_height * 3 / 2
    pub luma_inside : (x y : ℕ) → luma_place floats g x y < g.source_width * g.source_height
    pub chroma_inside :
        (x y : ℕ)
        → (g.source_width * g.source_height ≤ chroma_place floats g x y)
          × (chroma_place floats g x y + 1 < length input)
    pub luma :
        (x y : ℕ)
        → x < g.output_width
        → y < g.output_height
        → get_elem? output (y * g.output_width + x) ≡ get_elem? input (luma_place floats g x y)
    pub chroma :
        (x y : ℕ)
        → x < g.output_width / 2
        → y < g.output_height / 2
        → (get_elem? output (g.output_width * g.output_height + (y * g.output_width + x * 2))
            ≡ get_elem? input (chroma_place floats g x y))
          × (get_elem? output (g.output_width * g.output_height + (y * g.output_width + x * 2) + 1)
              ≡ get_elem? input (chroma_place floats g x y + 1))

  module _ (packed : IsPacked g input) where
    luma_inside : (x y : ℕ) → luma_place floats g x y < g.source_width * g.source_height
    unfolding luma_place
    luma_inside x y =
        let source = map_output_to_source floats g x y in
        let row = nearest floats source.y (g.source_height - 1) in
        let at = nearest floats source.x (g.source_width - 1) in
        let below : row < g.source_height = omega (
          arith,
          packed.high,
          clamp_index-le (wrap_int (floats.lround source.y)) (g.source_height - 1),
        ) in
        let left : at < g.source_width = omega (
          arith,
          packed.wide,
          clamp_index-le (wrap_int (floats.lround source.x)) (g.source_width - 1),
        ) in
        omega (arith, in_row row g.source_height g.source_width at below left)

    chroma_inside :
        (x y : ℕ)
        → (g.source_width * g.source_height ≤ chroma_place floats g x y)
          × (chroma_place floats g x y + 1 < length input)
    unfolding chroma_place
    chroma_inside x y =
        let source = map_output_to_source floats g (x * 2) (y * 2) in
        let row = nearest floats source.y (g.source_height - 2) in
        let at = nearest floats source.x (g.source_width - 2) in
        let below : even row / 2 < g.source_height / 2 = omega (
          arith,
          packed,
          clamp_index-le (wrap_int (floats.lround source.y)) (g.source_height - 2),
        ) in
        let left : even at + 1 < g.source_width = omega (
          arith,
          packed,
          clamp_index-le (wrap_int (floats.lround source.x)) (g.source_width - 2),
        ) in
        (
          omega arith,
          omega (
            arith,
            packed.packed,
            half_of g.source_width g.source_height packed.even_source_height,
            in_row (even row / 2) (g.source_height / 2) g.source_width (even at + 1) below left,
          ),
        )

    read_luma : (x y : ℕ) → (b : ℕ) × (get_elem? input (luma_place floats g x y) ≡ some b)
    read_luma x y =
        get_elem?-inside input (luma_place floats g x y)
          (omega (arith, luma_inside x y, packed.packed))

    read_chroma :
        (x y : ℕ)
        → (v : ℕ) × (u : ℕ) × (get_elem? input (chroma_place floats g x y) ≡ some v)
          × (get_elem? input (chroma_place floats g x y + 1) ≡ some u)
    read_chroma x y =
        let inside = (chroma_inside x y).1 in
        let (v, v_is) =
          get_elem?-inside input (chroma_place floats g x y) (omega (arith, inside)) in
        let (u, u_is) = get_elem?-inside input (chroma_place floats g x y + 1) inside in
        (v, u, v_is, u_is)

    luma_part : (x y : ℕ) → PartOf (λ i. luma_pixel floats input g i y) 1 x
    luma_part x y = let (b, given) = read_luma x y in (b ∷ [], rw given refl, refl)

    chroma_part : (x y : ℕ) → PartOf (λ i. chroma_pair floats input g i y) 2 x
    chroma_part x y =
        let (v, u, v_is, u_is) = read_chroma x y in (v ∷ u ∷ [], rw (v_is, u_is) refl, refl)

    copied :
        (luma chroma : Bytes)
        → IsFilled (luma_pixel floats input g) 1 g.output_width g.output_height luma
        → IsFilled (chroma_pair floats input g) 2 (g.output_width / 2) (g.output_height / 2) chroma
        → IsCopied (luma ++ chroma)
    copied luma chroma l c = record {
      size = rw (length-append luma chroma, luma_size, chroma_size) (omega (arith, rows));
      luma_inside = luma_inside;
      chroma_inside = chroma_inside;
      luma = λ x y left below.
          let (b, given) = read_luma x y in
          let at : y * g.output_width + x ≡ y * (g.output_width * 1) + (x * 1 + 0) =
            rw one (omega arith) in
          let small : y * (g.output_width * 1) + (x * 1 + 0) < length luma =
            rw (← at, luma_size)
              (omega (arith, in_row y g.output_height g.output_width x below left)) in
          rw (at, given)
            (get_elem?-append_front luma chroma (y * (g.output_width * 1) + (x * 1 + 0)) small
              ∙ l.places x y 0 (b ∷ []) left below (omega arith) (rw given refl));
      chroma = λ x y left below.
          let (v, u, v_is, u_is) = read_chroma x y in
          let place = y * (g.output_width / 2 * 2) + x * 2 in
          let at_v : g.output_width * g.output_height + (y * g.output_width + x * 2)
              ≡ length luma + (place + 0) =
            rw (luma_size, pairs) (omega arith) in
          let at_u : g.output_width * g.output_height + (y * g.output_width + x * 2) + 1
              ≡ length luma + (place + 1) =
            rw (luma_size, pairs) (omega arith) in
          (
            rw (at_v, v_is)
                (get_elem?-append_behind luma chroma (place + 0)
                  ∙ pair x y 0 v u left below (omega arith) v_is u_is),
            rw (at_u, u_is)
                (get_elem?-append_behind luma chroma (place + 1)
                  ∙ pair x y 1 v u left below (omega arith) v_is u_is),
          );
    }
      where
        one : g.output_width * 1 ≡ g.output_width
        one = omega arith

        pairs : g.output_width / 2 * 2 ≡ g.output_width
        pairs = omega (arith, packed.even_output_width)

        luma_size : length luma ≡ g.output_width * g.output_height
        luma_size = l.size ∙ rw one (omega arith)

        chroma_size : length chroma ≡ g.output_height / 2 * g.output_width
        chroma_size = c.size ∙ rw pairs refl

        pair :
            (x y l : ℕ) (v u : ℕ)
            → x < g.output_width / 2
            → y < g.output_height / 2
            → l < 2
            → get_elem? input (chroma_place floats g x y) ≡ some v
            → get_elem? input (chroma_place floats g x y + 1) ≡ some u
            → get_elem? chroma (y * (g.output_width / 2 * 2) + x * 2 + l) ≡ get_elem? (v ∷ u ∷ []) l
        pair x y l v u left below inside v_is u_is =
            let at : y * (g.output_width / 2 * 2) + x * 2 + l
                ≡ y * (g.output_width / 2 * 2) + (x * 2 + l) =
              omega arith in
            rw at (c.places x y l (v ∷ u ∷ []) left below inside (rw (v_is, u_is) refl))

        rows :
            g.output_width * g.output_height
            ≡ g.output_height / 2 * g.output_width + g.output_height / 2 * g.output_width
        rows = half_of g.output_width g.output_height packed.even_output_height

    -- Whatever the floating-point numbers do, the loops read inside the planes of the input and fill the
    -- output, luma from luma and pairs from pairs.
    pub copy_pixels-IsCopied :
        (output : Bytes) × (copy_pixels floats input g ≡ some (inl output)) × IsCopied output
    unfolding copy_pixels
    copy_pixels-IsCopied =
        let (luma, l) =
          grid-IsFilled (luma_pixel floats input g) 1 g.output_width g.output_height
            (λ x y _ _. luma_part x y) in
        let (chroma, c) =
          grid-IsFilled (chroma_pair floats input g) 2 (g.output_width / 2) (g.output_height / 2)
            (λ x y _ _. chroma_part x y) in
        (luma ++ chroma, rw (l.gathered, c.gathered) refl, copied luma chroma l c)
