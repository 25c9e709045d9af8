-- ===== src/Yuv/Convert.antt =====
-- `ConvertYuv420ToNv21` of native/yuv420_converter.cpp as a whole: the sizes that it takes, its
-- result, and when it has one.
use vcames.Common.{
  ℕ, zero, suc, ◌+◌, ◌*◌, ◌/◌, ◌%◌, ◌^◌, ◌≤◌, ◌<◌, ◌≡◌, refl, sym, ap, ◌∙◌, Bool, true, false, not,
  ◌||◌, none, some, arith, ltb, ◌==◌, if◌then◌else◌, length, length-append,
}
use vcames.Yuv.{
  YuvPlaneView, Memory, Converted, YuvError, size_mod, size_max, add_size, mul_size, checked_offset,
  luma_rows, chroma_rows, convert_yuv420_to_nv21, fails, is_odd, bad_dimensions, bad_output_size,
}
use native.Mathlib.Nat.{le-div_iff_mul-le, mod-le, mul-div_cancel_left}
use vcames.Yuv.Bounds.{InBounds, checked_offset_iff}
use vcames.Yuv.Reference.{
  nv21_of, sample_rows, pair_rows, length-sample_rows, length-pair_rows, luma_rows-sample_rows,
  chroma_rows-pair_rows,
}

-- The sizes that the conversion takes.
pub record IsNv21Size (crop_left crop_top width height output_size : ℕ) : Type 0 where
  pub some_columns : 0 < width
  pub some_rows : 0 < height
  pub even_width : width % 2 ≡ 0
  pub even_height : height % 2 ≡ 0
  pub even_left : crop_left % 2 ≡ 0
  pub even_top : crop_top % 2 ≡ 0
  pub packed_size : output_size ≡ width * height * 3 / 2
  pub fits : width * height * 3 < size_mod

two_guards :
    (a b : Bool) (e f : YuvError) (k : Converted)
    → (if a then fails e else if b then fails f else k).error ≡ none
    → (a ≡ false) × (b ≡ false) × (k.error ≡ none)
two_guards a b e f k h = ground arith

guards_passed :
    (a b : Bool) (e f : YuvError) (k : Converted)
    → a ≡ false
    → b ≡ false
    → (if a then fails e else if b then fails f else k) ≡ k
guards_passed a b e f k ha hb = ground arith

wrapped_product : (w h : ℕ) → 0 < w → mul_size w h / w ≡ h → mul_size w h ≡ w * h
wrapped_product w h p e =
    let l : h * w ≤ mul_size w h = (le-div_iff_mul-le p).0 (omega (arith, e)) in
    let below : mul_size w h ≤ w * h = mod-le (w * h) size_mod in omega (arith, l, below)

quotient_of_product : (w h : ℕ) → 0 < w → w * h / w ≡ h
quotient_of_product w h p = mul-div_cancel_left h p

module _ (given : Bool) (left top width height output_size : ℕ) where
  abbrev bad_size : Bool
  bad_size =
      not given
      || width == 0
      || height == 0
      || is_odd width
      || is_odd height
      || is_odd left
      || is_odd top

  abbrev bad_output : Bool
  bad_output =
      not (mul_size width height / width == height)
      || ltb (size_max / 3) (mul_size width height)
      || not (output_size == mul_size (mul_size width height) 3 / 2)

  guards-IsNv21Size :
      bad_size ≡ false → bad_output ≡ false → IsNv21Size left top width height output_size
  guards-IsNv21Size a b =
      let positive : 0 < width = ground arith in
      let quotient : mul_size width height / width ≡ height = ground arith in
      let true_product : mul_size width height ≡ width * height =
        wrapped_product width height positive quotient in
      let small : mul_size width height ≤ size_max / 3 = ground arith in
      let sized : output_size ≡ mul_size (mul_size width height) 3 / 2 = ground arith in
      record {
        some_columns = positive;
        some_rows = ground arith;
        even_width = ground arith;
        even_height = ground arith;
        even_left = ground arith;
        even_top = ground arith;
        packed_size = omega (arith, true_product, small, sized);
        fits = omega (arith, true_product, small);
      }

  size_passes : given ≡ true → IsNv21Size left top width height output_size → bad_size ≡ false
  size_passes g s =
      ground
        (arith, s.some_columns, s.some_rows, s.even_width, s.even_height, s.even_left, s.even_top)

  output_passes :
      IsNv21Size left top width height output_size
      → (pixels quotient sized : ℕ) → quotient ≡ height
      → pixels * 3 < size_mod
      → output_size ≡ sized
      → (not (quotient == height) || ltb (size_max / 3) pixels || not (output_size == sized))
        ≡ false
  output_passes s pixels quotient sized a b c = ground arith

  IsNv21Size-guards :
      given ≡ true
      → IsNv21Size left top width height output_size
      → (bad_size ≡ false) × (bad_output ≡ false)
  IsNv21Size-guards g s =
      let product : mul_size width height ≡ width * height = omega (arith, s) in
      let quotient = quotient_of_product width height s.some_columns in
      let sized : output_size ≡ mul_size (mul_size width height) 3 / 2 =
        rw product (omega (arith, s)) in
      (
        size_passes g s,
        output_passes s (mul_size width height) (mul_size width height / width)
            (mul_size (mul_size width height) 3 / 2) (rw product quotient)
            (omega (arith, s, product)) sized,
      )

-- The rows `r`, `r + 1`, … of a view, from `top` on.
abbrev pub RowsInside : YuvPlaneView → ℕ → ℕ → ℕ → ℕ → Type 0
RowsInside p x top samples n = (r : ℕ) → r < n → (first : ℕ) × InBounds p x (top + r) samples first

row_offset :
    (p : YuvPlaneView) (x top samples n r : ℕ)
    → p.limit < size_mod
    → top + n < size_mod
    → RowsInside p x top samples n
    → r < n
    → (first : ℕ) × (checked_offset p x (add_size top r) samples ≡ some first)
row_offset p x top samples n r size fits inside h =
    let (first, b) = inside r h in
    let small : add_size top r ≡ top + r = omega arith in
    (first, rw small ((checked_offset_iff p x (top + r) samples first size).1 b))

luma_rows-error :
    (mem : Memory) (p : YuvPlaneView) (x top width n rows r : ℕ) (rest : Converted)
    → p.limit < size_mod
    → top + n < size_mod
    → RowsInside p x top width n
    → r + rows ≡ n
    → (luma_rows mem p x top width rows r rest).error ≡ rest.error
unfolding luma_rows
luma_rows-error mem p x top width n zero r rest size fits inside e = refl
luma_rows-error mem p x top width n (suc rows) r rest size fits inside e =
    let (first, found) = row_offset p x top width n r size fits inside (omega arith) in
    rw (found, luma_rows)
      (luma_rows-error mem p x top width n rows (r + 1) rest size fits inside (omega arith))

chroma_rows-error :
    (mem : Memory) (u v : YuvPlaneView) (x top width n rows r : ℕ)
    → u.limit < size_mod
    → v.limit < size_mod
    → top + n < size_mod
    → RowsInside u x top (width / 2) n
    → RowsInside v x top (width / 2) n
    → r + rows ≡ n
    → (chroma_rows mem u v x top width rows r).error ≡ none
unfolding chroma_rows
chroma_rows-error mem u v x top width n zero r us vs fits iu iv e = refl
chroma_rows-error mem u v x top width n (suc rows) r us vs fits iu iv e =
    let (u_first, u_found) = row_offset u x top (width / 2) n r us fits iu (omega arith) in
    let (v_first, v_found) = row_offset v x top (width / 2) n r vs fits iv (omega arith) in
    rw (u_found, chroma_rows)
      (rw (v_found, chroma_rows)
        (chroma_rows-error mem u v x top width n rows (r + 1) us vs fits iu iv (omega arith)))

even_test : (n : ℕ) → n % 2 ≡ 0 → is_odd n ≡ false
even_test n h = ground arith

packed : (a b w h : ℕ) → w ≡ a + a → h ≡ b + b → h * w + b * (a + a) ≡ w * h * 3 / 2
packed a b w h e f = rw (e, f) (omega arith)

module _ (mem : Memory) (y u v : YuvPlaneView) (left top width height : ℕ) (given : Bool)
    (output_size : ℕ) where
  abbrev converted : Converted
  converted = convert_yuv420_to_nv21 mem y u v left top width height given output_size

  abbrev chroma : Converted
  chroma = chroma_rows mem u v (left / 2) (top / 2) width (height / 2) 0

  abbrev rows : Converted
  rows = luma_rows mem y left top width height 0 chroma

  inner_success :
      converted.error ≡ none
      → IsNv21Size left top width height output_size × (converted ≡ rows) × (rows.error ≡ none)
  unfolding convert_yuv420_to_nv21
  inner_success h =
      let a = bad_size given left top width height output_size in
      let b = bad_output given left top width height output_size in
      let (ha, hb, hr) = two_guards a b bad_dimensions bad_output_size rows h in
      (
        guards-IsNv21Size given left top width height output_size ha hb,
        guards_passed a b bad_dimensions bad_output_size rows ha hb,
        hr,
      )

  length-nv21_of :
      IsNv21Size left top width height output_size
      → length (nv21_of mem y u v left top width height) ≡ output_size
  unfolding nv21_of
  length-nv21_of s =
      let w : width ≡ width / 2 + width / 2 = omega (arith, s) in
      let h : height ≡ height / 2 + height / 2 = omega (arith, s) in
      let luma = sample_rows mem y left top width height in
      let pairs = pair_rows mem u v (left / 2) (top / 2) (width / 2) (height / 2) in
      length-append luma pairs
      ∙ rw
          (
            length-sample_rows mem y left top width height,
            length-pair_rows mem u v (left / 2) (top / 2) (width / 2) (height / 2),
          )
          (packed (width / 2) (height / 2) width height w h)
      ∙ sym s.packed_size

  -- A conversion without an error has written exactly the packed NV21 image of the crop, sample by
  -- sample, also where it copies whole rows, and has filled the output; for planes of at most
  -- 2^64 - 1 bytes and a crop and a size of 32 bits.
  pub convert_yuv420_to_nv21-nv21_of :
      y.limit < size_mod
      → u.limit < size_mod
      → v.limit < size_mod
      → top < 2 ^ 32
      → height < 2 ^ 32
      → converted.error ≡ none
      → (converted.written ≡ nv21_of mem y u v left top width height)
        × (length converted.written ≡ output_size)
  unfolding nv21_of
  convert_yuv420_to_nv21-nv21_of ys us vs ht hh h =
      let (s, is_rows, hr) = inner_success h in
      let (hc, luma_same) =
        luma_rows-sample_rows mem y left top width height 0 chroma ys (omega arith) hr in
      let chroma_same =
        chroma_rows-pair_rows mem u v (left / 2) (top / 2) width (height / 2) 0
          (even_test width s.even_width) us vs (omega arith) hc in
      let same : converted.written ≡ nv21_of mem y u v left top width height =
        ap (λ c. c.written) is_rows
        ∙ luma_same
        ∙ (let luma_top : top + 0 ≡ top = omega arith in
            let chroma_top : top / 2 + 0 ≡ top / 2 = omega arith in
            rw (chroma_same, luma_top, chroma_top) refl) in
      (same, ap length same ∙ length-nv21_of s)

  -- The conversion succeeds whenever the output is given and of the packed size, the crop and the size
  -- are even and not empty, and every row that it reads lies inside its plane.
  pub convert_yuv420_to_nv21-none :
      y.limit < size_mod
      → u.limit < size_mod
      → v.limit < size_mod
      → top < 2 ^ 32
      → height < 2 ^ 32
      → given ≡ true
      → IsNv21Size left top width height output_size
      → RowsInside y left top width height
      → RowsInside u (left / 2) (top / 2) (width / 2) (height / 2)
      → RowsInside v (left / 2) (top / 2) (width / 2) (height / 2)
      → converted.error ≡ none
  unfolding convert_yuv420_to_nv21
  convert_yuv420_to_nv21-none ys us vs ht hh g s iy iu iv =
      let (ha, hb) = IsNv21Size-guards given left top width height output_size g s in
      ap (λ c. c.error) (guards_passed _ _ bad_dimensions bad_output_size rows ha hb)
      ∙ luma_rows-error mem y left top width height height 0 chroma ys (omega arith) iy
          (omega arith)
      ∙ chroma_rows-error mem u v (left / 2) (top / 2) width (height / 2) (height / 2) 0 us vs
          (omega arith) iu iv (omega arith)
