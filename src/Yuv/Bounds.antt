-- ===== src/Yuv/Bounds.antt =====
-- `CheckedOffset` of native/yuv420_converter.cpp: the rows that lie inside a plane.
use vcames.Common.{
  ℕ, ◌+◌, ◌-◌, ◌*◌, ◌/◌, ◌≤◌, ◌<◌, ◌≡◌, refl, sym, ap, ◌∙◌, ◌↔◌, Bool, false, ◌||◌, none, some,
  arith, ltb, leb, ◌==◌, if◌then◌else◌,
}
use native.Mathlib.Nat.{le-div_iff_mul-le}
use vcames.Yuv.{add_size, mul_size, YuvPlaneView, size_mod, size_max, is_null, checked_offset}

-- A row of samples inside a plane, from `first` on.
pub record InBounds (plane : YuvPlaneView) (x y samples first : ℕ) : Type 0 where
  pub readable : is_null plane.address ≡ false
  pub some_rows : 0 < plane.row_stride
  pub some_pixels : 0 < plane.pixel_stride
  pub starts : plane.position ≤ plane.limit
  pub some_samples : 0 < samples
  pub first_is : first ≡ plane.position + y * plane.row_stride + x * plane.pixel_stride
  pub last_inside : first + (samples - 1) * plane.pixel_stride < plane.limit

-- A product that a division bounds.
div_guard : (n d k : ℕ) → 0 < d → (ltb (n / d) k ≡ false) ↔ (k * d ≤ n)
div_guard n d k h =
    let bound : (k ≤ n / d) ↔ (k * d ≤ n) = le-div_iff_mul-le h in
    (λ g. bound.0 (below g), λ l. above (bound.1 l))
  where
    below : ltb (n / d) k ≡ false → k ≤ n / d
    below g = ground arith

    above : k ≤ n / d → ltb (n / d) k ≡ false
    above l = ground arith

-- One guarded step of the sum: past its guard it does not wrap, and a sum that fits passes its guard.
module _ (a d k : ℕ) (pos_d : 0 < d) where
  no_wrap : (m : ℕ) → m ≡ k * d → a + m < size_mod → add_size a (mul_size k d) ≡ a + k * d
  no_wrap m e h = rw (← e) (omega arith)

  step_fits :
      a < size_mod
      → ltb ((size_max - a) / d) k ≡ false
      → (add_size a (mul_size k d) ≡ a + k * d) × (a + k * d < size_mod)
  step_fits h g =
      let l = (div_guard (size_max - a) d k pos_d).0 g in
      let fits : a + k * d < size_mod = omega (arith, l) in (no_wrap (k * d) refl fits, fits)

  step_passes :
      a + k * d < size_mod
      → (ltb ((size_max - a) / d) k ≡ false) × (add_size a (mul_size k d) ≡ a + k * d)
  step_passes h =
      ((div_guard (size_max - a) d k pos_d).1 (omega (arith, h)), no_wrap (k * d) refl h)

not_leb : (a b : ℕ) → leb a b ≡ false → b < a
not_leb a b h = ground arith

leb_above : (a b : ℕ) → b < a → leb a b ≡ false
leb_above a b h = ground arith

five_guards :
    (a b c d e : Bool) (v f : ℕ)
    → (if a
        then none
        else if b
        then none
        else if c
        then none
        else if d
        then none
        else if e
        then none
        else some v)
      ≡ some f
    → (a ≡ false) × (b ≡ false) × (c ≡ false) × (d ≡ false) × (e ≡ false) × (v ≡ f)
five_guards a b c d e v f h = ground arith

all_pass :
    (a b c d e : Bool) (v : ℕ)
    → a ≡ false
    → b ≡ false
    → c ≡ false
    → d ≡ false
    → e ≡ false
    → (if a
        then none
        else if b
        then none
        else if c
        then none
        else if d
        then none
        else if e
        then none
        else some v)
      ≡ some v
all_pass a b c d e v ha hb hc hd he = ground arith

good_view :
    (plane : YuvPlaneView) (samples : ℕ)
    → (is_null plane.address
        || plane.row_stride == 0
        || plane.pixel_stride == 0
        || ltb plane.limit plane.position
        || samples == 0)
      ≡ false
    → (is_null plane.address ≡ false)
      × (0 < plane.row_stride)
      × (0 < plane.pixel_stride)
      × (plane.position ≤ plane.limit)
      × (0 < samples)
good_view plane samples h = ground arith

view_passes :
    (plane : YuvPlaneView) (samples : ℕ)
    → is_null plane.address ≡ false
    → 0 < plane.row_stride
    → 0 < plane.pixel_stride
    → plane.position ≤ plane.limit
    → 0 < samples
    → (is_null plane.address
        || plane.row_stride == 0
        || plane.pixel_stride == 0
        || ltb plane.limit plane.position
        || samples == 0)
      ≡ false
view_passes plane samples a b c d e = ground arith

module _ (plane : YuvPlaneView) (x y samples : ℕ) where
  abbrev bad_view : Bool
  bad_view =
      is_null plane.address
      || plane.row_stride == 0
      || plane.pixel_stride == 0
      || ltb plane.limit plane.position
      || samples == 0

  abbrev row : ℕ
  row = add_size plane.position (mul_size y plane.row_stride)

  abbrev first_of : ℕ
  first_of = add_size row (mul_size x plane.pixel_stride)

  abbrev last_of : ℕ
  last_of = add_size first_of (mul_size (samples - 1) plane.pixel_stride)

  checked_offset-InBounds :
      (first : ℕ)
      → plane.limit < size_mod
      → checked_offset plane x y samples ≡ some first
      → InBounds plane x y samples first
  unfolding checked_offset
  checked_offset-InBounds first size h =
      let (view, gy, gx, gn, glast, same) =
        five_guards bad_view (ltb ((size_max - plane.position) / plane.row_stride) y)
          (ltb ((size_max - row) / plane.pixel_stride) x)
          (ltb ((size_max - first_of) / plane.pixel_stride) (samples - 1)) (leb plane.limit last_of)
          first_of first h in
      let (readable, rows, pixels, starts, many) = good_view plane samples view in
      let (row_is, row_fits) = step_fits plane.position plane.row_stride y rows (omega arith) gy in
      let (first_is, first_fits) =
        step_fits row plane.pixel_stride x pixels (rw row_is row_fits) gx in
      let (last_is, _) =
        step_fits first_of plane.pixel_stride (samples - 1) pixels (rw first_is first_fits) gn in
      record {
        readable = readable;
        some_rows = rows;
        some_pixels = pixels;
        starts = starts;
        some_samples = many;
        first_is = sym same ∙ first_is ∙ ap (λ r. r + x * plane.pixel_stride) row_is;
        last_inside = rw (← same) (rw last_is at (not_leb plane.limit last_of glast));
      }

  InBounds-checked_offset :
      (first : ℕ)
      → plane.limit < size_mod
      → InBounds plane x y samples first
      → checked_offset plane x y samples ≡ some first
  unfolding checked_offset
  InBounds-checked_offset first size b =
      let (gy, row_is) =
        step_passes plane.position plane.row_stride y b.some_rows (omega (arith, b)) in
      let (gx, first_is) =
        step_passes row plane.pixel_stride x b.some_pixels (rw row_is (omega (arith, b))) in
      let is_first : first_of ≡ first =
        first_is ∙ ap (λ r. r + x * plane.pixel_stride) row_is ∙ sym b.first_is in
      let (gn, last_is) =
        step_passes first_of plane.pixel_stride (samples - 1) b.some_pixels
          (rw is_first (omega (arith, b))) in
      all_pass bad_view _ _ _ _ first_of
        (view_passes plane samples b.readable b.some_rows b.some_pixels b.starts b.some_samples) gy
        gx gn (rw last_is (rw is_first (leb_above plane.limit _ b.last_inside)))
      ∙ ap some is_first

  -- `CheckedOffset` gives an offset exactly when the view is usable and every sample of the row lies
  -- inside the plane; the offset is then the true sum, with no wrap-around of `size_t`.
  pub checked_offset_iff :
      (first : ℕ)
      → plane.limit < size_mod
      → (checked_offset plane x y samples ≡ some first) ↔ InBounds plane x y samples first
  checked_offset_iff first size =
      (checked_offset-InBounds first size, InBounds-checked_offset first size)
