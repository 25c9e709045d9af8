-- ===== src/Jpeg.antt =====
-- daemon/src/image_transform.cpp: ReadJpegDimensions, with its reads checked against the bounds of the
-- vector. Sums of offsets do not wrap: a vector is shorter than 2^63 bytes, and a segment than 2^16.
pub mod Total
pub mod RoundTrip
mod Tests
use vcames.Common.{
  ℕ, zero, suc, ◌+◌, ◌-◌, ◌*◌, ◌/◌, ◌%◌, ◌^◌, ◌≤◌, ◌<◌, min, String, ◌≡◌, refl, sym, ap, subst, ◌∙◌,
  ◌≢◌, ◌↔◌, ◌⊎◌, inl, inr, Bool, true, false, not, ◌&&◌, ◌||◌, Option, none, some, List, [], ◌∷◌,
  ◌++◌, map, append-nil, append_assoc, arith, ltb, leb, ◌==◌, if◌then◌else◌, ltb→lt, lt→ltb, leb→le,
  le→leb, ==_iff, Bool-cases, Option-cases, length, is_empty, get_elem?, take, drop, replicate, any,
  all, All, length-append, take-append-drop, length-take, length-drop, take-append, drop-append,
  drop-drop, length-replicate, ℤ, pos, negsuc, ==ℤ_iff, ◌==ℤ◌, to_decimal, to_string, Bytes,
  equal_iff, equal_self, starts_with-drop, starts_with-append, find-split, find-starts_with,
  find-append, find_index-none, find_index-some, find_index-all, find_index-append, bytes, equal,
  starts_with, find, find_index,
}
use vcames.Common.Partial.{◌>>=◌}

abbrev pub start_of_frame_markers : Bytes
start_of_frame_markers =
    0xc0 ∷ 0xc1 ∷ 0xc2 ∷ 0xc3 ∷ 0xc5 ∷ 0xc6 ∷ 0xc7 ∷ 0xc9 ∷ 0xca ∷ 0xcb ∷ 0xcd ∷ 0xce ∷ 0xcf ∷ []

-- `IsStartOfFrame`
unfoldable pub is_start_of_frame : ℕ → Bool
is_start_of_frame marker = any (λ m. marker == m) start_of_frame_markers

-- `BigEndian16` at an offset; `none` would be a read outside the vector.
unfoldable pub big_endian_16 : Bytes → ℕ → Option ℕ
big_endian_16 jpeg offset = do
  high ← get_elem? jpeg offset
  low ← get_elem? jpeg (offset + 1)
  some (high * 256 + low)

-- What a scan that ends leaves: the dimensions, or why there are none.
pub data Dimensions : Type 0 where
  not_jpeg no_dimensions : Dimensions
  dimensions : ℕ → ℕ → Dimensions

-- How far the loop over fill bytes goes.
unfoldable pub count_fill : Bytes → ℕ
count_fill [] = 0
count_fill (c ∷ s) = if c == 0xff then suc (count_fill s) else 0

-- Markers that no segment follows.
unfoldable pub is_standalone : ℕ → Bool
is_standalone marker = marker == 0xd8 || marker == 0x01 || leb 0xd0 marker && leb marker 0xd7

unfoldable pub read_frame_header : Bytes → ℕ → Option Dimensions
unfolding big_endian_16
read_frame_header jpeg offset = do
  height ← big_endian_16 jpeg (offset + 3)
  width ← big_endian_16 jpeg (offset + 5)
  some (if width == 0 || height == 0 then no_dimensions else dimensions width height)

unfoldable pub read_segment : (ℕ → Option Dimensions) → Bytes → ℕ → ℕ → ℕ → Option Dimensions
unfolding read_frame_header is_start_of_frame
read_segment next jpeg marker offset segment_length =
    if ltb segment_length 2 || ltb (length jpeg) (offset + segment_length)
    then some no_dimensions
    else if is_start_of_frame marker && leb 7 segment_length
    then read_frame_header jpeg offset
    else next (offset + segment_length)

-- What follows a marker: `offset` is the place behind it, `next` goes on with the loop.
unfoldable pub read_marker : (ℕ → Option Dimensions) → Bytes → ℕ → ℕ → Option Dimensions
unfolding read_segment is_standalone
read_marker next jpeg marker offset =
    if is_standalone marker
    then next offset
    else if marker == 0xd9 || marker == 0xda || ltb (length jpeg) (offset + 2)
    then some no_dimensions
    else (big_endian_16 jpeg offset >>= read_segment next jpeg marker offset)

-- The loop over markers, on fuel.
unfoldable pub scan : ℕ → Bytes → ℕ → Option Dimensions
unfolding read_marker count_fill
scan zero jpeg offset = none
scan (suc fuel) jpeg offset =
    if ltb (length jpeg) (offset + 4)
    then some no_dimensions
    else (let at_marker = offset + count_fill (drop offset jpeg) in
        if leb (length jpeg) at_marker
        then some no_dimensions
        else (get_elem? jpeg at_marker >>= λ marker.
            read_marker (scan fuel jpeg) jpeg marker (at_marker + 1)))

unfoldable pub is_jpeg : Bytes → Bool
is_jpeg (c ∷ d ∷ _ ∷ _ ∷ _) = c == 0xff && d == 0xd8
is_jpeg _ = false

-- `ReadJpegDimensions`; every turn of the loop passes at least one byte.
unfoldable pub read_jpeg_dimensions : Bytes → Option Dimensions
unfolding scan is_jpeg
read_jpeg_dimensions jpeg = if is_jpeg jpeg then scan (length jpeg) jpeg 2 else some not_jpeg
