-- ===== src/Jpeg/Total.antt =====
-- ReadJpegDimensions of daemon/src/image_transform.cpp over arbitrary bytes: its loop and its reads.
use vcames.Common.{
  ℕ, zero, suc, ◌+◌, ◌*◌, ◌≤◌, ◌<◌, ◌≡◌, refl, inl, inr, Bool, true, false, ◌&&◌, ◌||◌, Option,
  some, [], ◌∷◌, arith, ltb, leb, ◌==◌, if◌then◌else◌, Bool-cases, length, get_elem?, drop, All,
  Bytes,
}
use vcames.Jpeg.{
  Dimensions, not_jpeg, no_dimensions, dimensions, big_endian_16, is_start_of_frame, count_fill,
  is_standalone, read_frame_header, read_segment, read_marker, scan, is_jpeg, read_jpeg_dimensions,
}

abbrev pub Is16Bit : Dimensions → Type 0
Is16Bit not_jpeg = Unit
Is16Bit no_dimensions = Unit
Is16Bit (dimensions width height) = (0 < width) × (width < 65536) × (0 < height) × (height < 65536)

abbrev pub IsByte : ℕ → Type 0
IsByte c = c < 256

IsByte-get_elem? :
    (s : Bytes) (i : ℕ)
    → All IsByte s
    → i < length s
    → (c : ℕ) × (get_elem? s i ≡ some c) × IsByte c
IsByte-get_elem? [] i h l = absurd (omega arith)
IsByte-get_elem? (c ∷ s) zero h l = (c, refl, h.0)
IsByte-get_elem? (c ∷ s) (suc i) h l = IsByte-get_elem? s i h.1 (omega arith)

word_at :
    (s : Bytes) (i : ℕ)
    → All IsByte s
    → i + 1 < length s
    → (w : ℕ) × (big_endian_16 s i ≡ some w) × (w < 65536)
unfolding big_endian_16
word_at s i h l =
    let (a, ea, ba) = IsByte-get_elem? s i h (omega arith) in
    let (b, eb, bb) = IsByte-get_elem? s (i + 1) h (omega arith) in
    (a * 256 + b, rw (ea, eb) refl, omega arith)

-- A scan that ends, with dimensions of 16 bits if it has any.
abbrev Ends : Option Dimensions → Type 0
Ends o = (d : Dimensions) × (o ≡ some d) × Is16Bit d

none_found : Ends (some no_dimensions)
none_found = (no_dimensions, refl, tt)

either_way :
    (t : Bool) {x y : Option Dimensions}
    → (t ≡ true → Ends x)
    → (t ≡ false → Ends y)
    → Ends (if t then x else y)
either_way true f g = f refl
either_way false f g = g refl

read_frame_header-Ends :
    (jpeg : Bytes) (offset : ℕ)
    → All IsByte jpeg
    → offset + 7 ≤ length jpeg
    → Ends (read_frame_header jpeg offset)
unfolding read_frame_header
read_frame_header-Ends jpeg offset h l =
    let (height, eh, bh) = word_at jpeg (offset + 3) h (omega arith) in
    let (width, ew, bw) = word_at jpeg (offset + 5) h (omega arith) in
    rw (eh, ew)
      (elim (Bool-cases (width == 0 || height == 0)) [
        | inl e ↦ rw e none_found
        | inr e ↦ rw e (dimensions width height, refl, (ground arith, bw, ground arith, bh))
      ])

module _ (next : ℕ → Option Dimensions) (jpeg : Bytes) (bytes_ : All IsByte jpeg) (from : ℕ)
    (go_on : (offset : ℕ) → from ≤ offset → offset ≤ length jpeg → Ends (next offset)) where
  read_segment-Ends :
      (marker offset segment_length : ℕ)
      → from ≤ offset
      → Ends (read_segment next jpeg marker offset segment_length)
  unfolding read_segment
  read_segment-Ends marker offset n l =
      either_way (ltb n 2 || ltb (length jpeg) (offset + n)) (λ _. none_found)
        (λ in_bounds.
          either_way (is_start_of_frame marker && leb 7 n)
            (λ frame. read_frame_header-Ends jpeg offset bytes_ (ground arith))
            (λ _. go_on (offset + n) (omega arith) (ground arith)))

  read_marker-Ends :
      (marker offset : ℕ)
      → from ≤ offset
      → offset ≤ length jpeg
      → Ends (read_marker next jpeg marker offset)
  unfolding read_marker
  read_marker-Ends marker offset l u =
      either_way (is_standalone marker) (λ _. go_on offset l u)
        (λ _.
          either_way (marker == 0xd9 || marker == 0xda || ltb (length jpeg) (offset + 2))
            (λ _. none_found)
            (λ in_bounds.
              let (n, e, b) = word_at jpeg offset bytes_ (ground arith) in
              rw e (read_segment-Ends marker offset n l)))

scan-Ends :
    (fuel : ℕ) (jpeg : Bytes) (offset : ℕ)
    → All IsByte jpeg
    → offset ≤ length jpeg
    → length jpeg < offset + fuel
    → Ends (scan fuel jpeg offset)
unfolding scan
scan-Ends zero jpeg offset h l f = absurd (omega arith)
scan-Ends (suc fuel) jpeg offset h l f =
    let at = offset + count_fill (drop offset jpeg) in
    either_way (ltb (length jpeg) (offset + 4)) (λ _. none_found)
      (λ _.
        either_way (leb (length jpeg) at) (λ _. none_found)
          (λ inside.
            let (marker, e, _) = IsByte-get_elem? jpeg at h (ground arith) in
            rw e (
              read_marker-Ends (scan fuel jpeg) jpeg h (at + 1)
                (λ o lo up. scan-Ends fuel jpeg o h up (omega arith)) marker (at + 1) (omega arith)
                (ground arith))))

long_enough : (s : Bytes) → is_jpeg s ≡ true → 2 ≤ length s
unfolding is_jpeg
long_enough (a ∷ b ∷ c ∷ d ∷ s) e = omega arith
long_enough _ e = cc

-- Whatever bytes a vector holds, the scan of its header ends and reads no byte outside it; the
-- dimensions that it finds, if any, are from 1 to 65535.
pub read_jpeg_dimensions-ends :
    (jpeg : Bytes)
    → All IsByte jpeg
    → (d : Dimensions) × (read_jpeg_dimensions jpeg ≡ some d) × Is16Bit d
unfolding read_jpeg_dimensions is_jpeg
read_jpeg_dimensions-ends jpeg h = elim (Bool-cases (is_jpeg jpeg)) [
  | inl e ↦ rw e (scan-Ends (length jpeg) jpeg 2 h (long_enough jpeg e) (omega arith))
  | inr e ↦ rw e (not_jpeg, refl, tt)
]
