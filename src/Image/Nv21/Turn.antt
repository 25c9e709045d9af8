-- ===== src/Image/Nv21/Turn.antt =====
-- `TransformNv21` of daemon/src/image_transform.cpp against a turned and mirrored picture, where nothing
-- is scaled.
use vcames.Common.{
  ℕ, zero, suc, ◌+◌, ◌-◌, ◌*◌, ◌/◌, ◌%◌, ◌^◌, ◌≤◌, ◌<◌, min, ◌≡◌, refl, Bool, true, arith, ltb,
  if◌then◌else◌, lt→ltb, get_elem?, ℤ, pos, Bytes,
}
use vcames.Image.{Floats, TransformOptions, Geometry, clamp_index, wrap_int, map_output_to_source}
use vcames.Image.Nv21.{even, nearest, luma_place, chroma_place}
use vcames.Image.Nv21.Exact.{IsExact, exact_limit, whole}

-- A place in a picture of a size.
pub record Place : Type 0 where
  pub width : ℕ
  pub height : ℕ
  pub x : ℕ
  pub y : ℕ

abbrev pub place : ℕ → ℕ → ℕ → ℕ → Place
place w h x y = record { width = w; height = h; x = x; y = y }

-- The top row becomes the right column.
abbrev pub quarter_turn : Place → Place
quarter_turn p = place p.height p.width (p.height - 1 - p.y) p.x

abbrev pub quarter_turns : ℕ → Place → Place
quarter_turns zero p = p
quarter_turns (suc n) p = quarter_turn (quarter_turns n p)

abbrev pub mirror_place : Bool → Place → Place
mirror_place mirror p = record p { x = if mirror then p.width - 1 - p.x else p.x }

-- Where the output shows a place of the source: clockwise quarter turns, and then a mirror.
abbrev pub turn : ℕ → Bool → Place → Place
turn quarters mirror p = mirror_place mirror (quarter_turns quarters p)

-- An output as large as the turned source.
abbrev pub turn_options : ℕ → Bool → ℕ → ℕ → ℤ → TransformOptions
turn_options quarters mirror w h quality = record {
  width = pos (turn quarters mirror (place w h 0 0)).width;
  height = pos (turn quarters mirror (place w h 0 0)).height;
  rotation = pos (quarters * 90);
  mirror = mirror;
  jpeg_quality = quality;
}

-- Every byte of the source stands at the turned place in the output.
pub record IsTurned (quarters : ℕ) (mirror : Bool) (w h : ℕ) (input output : Bytes) : Type 0 where
  pub luma :
      (x y : ℕ)
      → x < w
      → y < h
      → let to = turn quarters mirror (place w h x y) in
        get_elem? output (to.y * to.width + to.x) ≡ get_elem? input (y * w + x)
  pub chroma :
      (x y : ℕ)
      → x < w / 2
      → y < h / 2
      → let to = turn quarters mirror (place (w / 2) (h / 2) x y) in
        (get_elem? output (w * h + (to.y * (to.width * 2) + to.x * 2))
          ≡ get_elem? input (w * h + (y * w + x * 2)))
        × (get_elem? output (w * h + (to.y * (to.width * 2) + to.x * 2) + 1)
            ≡ get_elem? input (w * h + (y * w + x * 2) + 1))

module _ {ℓ} {Float : Type ℓ} (floats : Floats Float) (halves : ℕ → ℕ → Float)
    (exact : IsExact floats halves) where
  wrapped :
      (n highest : ℕ) → n * 2 ≤ exact_limit → clamp_index (wrap_int (pos n)) highest ≡ min n highest
  unfolding clamp_index wrap_int
  wrapped n highest small =
      let low : n % 2 ^ 32 ≡ n = omega (arith, small) in
      let fits : ltb n (2 ^ 31) ≡ true = lt→ltb n (2 ^ 31) (omega (arith, small)) in
      rw (low, fits) refl

  nearest-whole :
      (n highest : ℕ)
      → n * 2 ≤ exact_limit
      → nearest floats (halves (n * 2) 0) highest ≡ min n highest
  nearest-whole n highest small = rw (exact.lround_is n small) (wrapped n highest small)

  module _ (g : Geometry) (small_w : g.source_width * 3 ≤ exact_limit)
      (small_h : g.source_height * 3 ≤ exact_limit) where
    pub luma_place-whole :
        (x y sx sy : ℕ)
        → map_output_to_source floats g x y ≡ whole halves sx sy
        → sx < g.source_width
        → sy < g.source_height
        → luma_place floats g x y ≡ sy * g.source_width + sx
    unfolding luma_place
    luma_place-whole x y sx sy at left below =
        let column : min sx (g.source_width - 1) ≡ sx = omega (arith, left) in
        let row : min sy (g.source_height - 1) ≡ sy = omega (arith, below) in
        rw
          (
            luma_place,
            at,
            nearest-whole sx (g.source_width - 1) (omega arith),
            nearest-whole sy (g.source_height - 1) (omega arith),
            column,
            row,
          )
          refl

    pub chroma_place-whole :
        (x y sx sy : ℕ)
        → map_output_to_source floats g (x * 2) (y * 2) ≡ whole halves sx sy
        → sx < g.source_width
        → sy < g.source_height
        → g.source_width % 2 ≡ 0
        → g.source_height % 2 ≡ 0
        → chroma_place floats g x y
          ≡ g.source_width * g.source_height + (sy / 2 * g.source_width + sx / 2 * 2)
    unfolding chroma_place
    chroma_place-whole x y sx sy at left below even_w even_h =
        let column : even (min sx (g.source_width - 2)) ≡ sx / 2 * 2 =
          omega (arith, left, even_w) in
        let row : even (min sy (g.source_height - 2)) / 2 ≡ sy / 2 = omega (arith, below, even_h) in
        rw
          (
            chroma_place,
            at,
            nearest-whole sx (g.source_width - 2) (omega arith),
            nearest-whole sy (g.source_height - 2) (omega arith),
            column,
            row,
          )
          (omega arith)
