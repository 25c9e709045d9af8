-- ===== src/Jpeg/Tests.antt =====
-- Small JPEG headers, and the theorems at them.
use vcames.Common.{ℕ, ◌≡◌, refl, true, some, List, [], ◌∷◌, arith, ltb, any, all, All, Bytes}
use vcames.Jpeg.{
  Dimensions, dimensions, no_dimensions, not_jpeg, is_start_of_frame, is_standalone,
  read_jpeg_dimensions, scan,
}
use vcames.Jpeg.Total.{IsByte, Is16Bit, read_jpeg_dimensions-ends}
use vcames.Jpeg.RoundTrip.{
  Part, segment, IsPart, frame_header, jpeg_of, read_jpeg_dimensions-jpeg_of,
}

abbrev header : Bytes
header =
    0xff ∷ 0xd8 ∷ 0xff ∷ 0xe0 ∷ 0 ∷ 3 ∷ 9 ∷ 0xff ∷ 0xc0 ∷ 0 ∷ 8 ∷ 8 ∷ 2 ∷ 0xd0 ∷ 5 ∷ 0 ∷ 3 ∷ 0xff
    ∷ 0xd9 ∷ []

abbrev parts : List (ℕ × Part)
parts = (0, segment 0xe0 (9 ∷ [])) ∷ []

reads : read_jpeg_dimensions header ≡ some (dimensions 1280 720)
unfolding read_jpeg_dimensions scan any
reads = refl

-- A segment that goes on behind the end, and a frame header behind the end of the image.
stops :
    (read_jpeg_dimensions (0xff ∷ 0xd8 ∷ 0xff ∷ 0xe0 ∷ 0 ∷ 9 ∷ []) ≡ some no_dimensions)
    × (read_jpeg_dimensions (0xff ∷ 0xd8 ∷ 0xff ∷ 0xd9 ∷ 0xff ∷ 0xc0 ∷ []) ≡ some no_dimensions)
    × (read_jpeg_dimensions (0xff ∷ 0xd9 ∷ 0 ∷ 0 ∷ []) ≡ some not_jpeg)
unfolding read_jpeg_dimensions scan any
stops = (refl, refl, refl)

all_bytes : (s : Bytes) → all (λ c. ltb c 256) s ≡ true → All IsByte s
unfolding all
all_bytes [] h = tt
all_bytes (c ∷ s) h = (ground arith, all_bytes s (ground arith))

read_jpeg_dimensions-ends_example :
    (d : Dimensions) × (read_jpeg_dimensions header ≡ some d) × Is16Bit d
unfolding all
read_jpeg_dimensions-ends_example = read_jpeg_dimensions-ends header (all_bytes header refl)

is_part : All IsPart parts
unfolding is_standalone is_start_of_frame any
is_part = ((omega arith, refl, ground arith, ground arith, refl, omega arith), tt)

is_frame : is_start_of_frame 0xc0 ≡ true
unfolding is_start_of_frame any
is_frame = refl

read_jpeg_dimensions-jpeg_of_example :
    read_jpeg_dimensions
      (jpeg_of parts (frame_header 0 0xc0 8 720 1280 (3 ∷ []) (0xff ∷ 0xd9 ∷ [])))
    ≡ some (dimensions 1280 720)
read_jpeg_dimensions-jpeg_of_example =
    read_jpeg_dimensions-jpeg_of parts 0 0xc0 8 720 1280 (3 ∷ []) (0xff ∷ 0xd9 ∷ []) is_part
      (omega arith) is_frame (omega arith) (omega arith)
