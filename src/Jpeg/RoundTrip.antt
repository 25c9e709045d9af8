-- ===== src/Jpeg/RoundTrip.antt =====
-- ReadJpegDimensions of daemon/src/image_transform.cpp against headers that are written out, segment
-- by segment.
use vcames.Common.{
  ℕ, zero, suc, ◌+◌, ◌-◌, ◌/◌, ◌%◌, ◌≤◌, ◌<◌, ◌≡◌, refl, sym, ap, ◌∙◌, ◌≢◌, Bool, true, false, ◌&&◌,
  ◌||◌, Option, some, List, [], ◌∷◌, ◌++◌, arith, ltb, leb, ◌==◌, if◌then◌else◌, le→leb, length,
  get_elem?, drop, replicate, any, All, length-append, length-drop, drop-append, drop-drop,
  length-replicate, Bytes,
}
use vcames.Jpeg.{
  Dimensions, dimensions, big_endian_16, is_start_of_frame, count_fill, is_standalone,
  read_frame_header, read_segment, read_marker, scan, is_jpeg, read_jpeg_dimensions,
}

-- A marker that stands alone, or with a segment: its length and its body.
pub data Part : Type 0 where
  alone : ℕ → Part
  segment : ℕ → Bytes → Part

abbrev pub big_endian : ℕ → Bytes → Bytes
big_endian n rest = n / 256 ∷ n % 256 ∷ rest

abbrev pub marked : ℕ → ℕ → Bytes → Bytes
marked fill marker rest = replicate (fill + 1) 0xff ++ marker ∷ rest

-- A part behind `fill` more bytes 0xff than the one that it needs.
abbrev pub part_onto : ℕ × Part → Bytes → Bytes
part_onto (fill, alone marker) rest = marked fill marker rest
part_onto (fill, segment marker body) rest =
    marked fill marker (big_endian (length body + 2) (body ++ rest))

abbrev pub parts_onto : List (ℕ × Part) → Bytes → Bytes
parts_onto [] rest = rest
parts_onto (p ∷ ps) rest = part_onto p (parts_onto ps rest)

-- The frame header: its segment goes on for `more` bytes behind the width.
abbrev pub frame_header : ℕ → ℕ → ℕ → ℕ → ℕ → Bytes → Bytes → Bytes
frame_header fill marker precision height width more rest =
    marked fill marker (
      big_endian (length more + 7)
        (precision ∷ big_endian height (big_endian width (more ++ rest))))

abbrev pub jpeg_of : List (ℕ × Part) → Bytes → Bytes
jpeg_of parts rest = 0xff ∷ 0xd8 ∷ parts_onto parts rest

-- Parts that the format allows in front of the frame header.
abbrev pub IsPart : ℕ × Part → Type 0
IsPart (fill, alone marker) = is_standalone marker ≡ true
IsPart (fill, segment marker body) =
    (marker < 0xff)
    × (is_standalone marker ≡ false)
    × (marker ≢ 0xd9)
    × (marker ≢ 0xda)
    × (is_start_of_frame marker ≡ false)
    × (length body + 2 < 65536)

get_elem?-drop : (s : Bytes) (n i : ℕ) → get_elem? (drop n s) i ≡ get_elem? s (n + i)
get_elem?-drop s zero i = ap (get_elem? s) (omega arith)
get_elem?-drop [] (suc n) i = let e : suc n + i ≡ suc (n + i) = omega arith in refl
get_elem?-drop (c ∷ s) (suc n) i =
    let e : suc n + i ≡ suc (n + i) = omega arith in rw e (get_elem?-drop s n i)

count_fill-replicate :
    (n marker : ℕ) (rest : Bytes)
    → marker < 0xff
    → count_fill (replicate n 0xff ++ marker ∷ rest) ≡ n
unfolding count_fill
count_fill-replicate zero marker rest h = ground arith
count_fill-replicate (suc n) marker rest h = ap suc (count_fill-replicate n marker rest h)

drop-replicate :
    (n marker : ℕ) (rest : Bytes) → drop (n + 1) (replicate n 0xff ++ marker ∷ rest) ≡ rest
drop-replicate zero marker rest = refl
drop-replicate (suc n) marker rest =
    let e : suc n + 1 ≡ suc (n + 1) = omega arith in rw e (drop-replicate n marker rest)

get_elem?-replicate :
    (n marker : ℕ) (rest : Bytes) → get_elem? (replicate n 0xff ++ marker ∷ rest) n ≡ some marker
get_elem?-replicate zero marker rest = refl
get_elem?-replicate (suc n) marker rest = get_elem?-replicate n marker rest

length-marked :
    (fill marker : ℕ) (rest : Bytes) → length (marked fill marker rest) ≡ fill + 2 + length rest
length-marked fill marker rest = omega (
  arith,
  length-append (replicate (fill + 1) 0xff) (marker ∷ rest),
  length-replicate {A = ℕ} (fill + 1) 0xff,
)

if_no {ℓ} : {A : Type ℓ} (t : Bool) (x y : A) → t ≡ false → (if t then x else y) ≡ y
if_no true x y e = cc
if_no false x y e = refl

if_yes {ℓ} : {A : Type ℓ} (t : Bool) (x y : A) → t ≡ true → (if t then x else y) ≡ x
if_yes true x y e = refl
if_yes false x y e = cc

not_ltb : (a b : ℕ) → b ≤ a → ltb a b ≡ false
not_ltb a b h = ground arith

not_leb : (a b : ℕ) → b < a → leb a b ≡ false
not_leb a b h = ground arith

standalone_small : (marker : ℕ) → is_standalone marker ≡ true → marker < 0xff
unfolding is_standalone
standalone_small marker h = ground arith

goes_on :
    (marker size end : ℕ)
    → marker ≢ 0xd9
    → marker ≢ 0xda
    → end ≤ size
    → (marker == 0xd9 || marker == 0xda || ltb size end) ≡ false
goes_on marker size end e f l = ground arith

fits : (n size end : ℕ) → 2 ≤ n → end ≤ size → (ltb n 2 || ltb size end) ≡ false
fits n size end a b = ground arith

frame_marker :
    (marker : ℕ)
    → is_start_of_frame marker ≡ true
    → (is_standalone marker ≡ false) × (marker ≢ 0xd9) × (marker ≢ 0xda)
unfolding is_start_of_frame is_standalone any
frame_marker marker h = ground arith

both_positive : (w h : ℕ) → 0 < w → 0 < h → (w == 0 || h == 0) ≡ false
both_positive w h a b = ground arith

parts_long :
    (parts : List (ℕ × Part)) (fill marker precision height width : ℕ) (more rest : Bytes)
    → length parts + 9
      ≤ length (parts_onto parts (frame_header fill marker precision height width more rest))
parts_long [] fill marker precision height width more rest = omega (
  arith,
  length-marked fill marker (
      big_endian (length more + 7)
        (precision ∷ big_endian height (big_endian width (more ++ rest)))),
)
parts_long ((n, alone a) ∷ parts) fill marker precision height width more rest =
    let r = parts_onto parts (frame_header fill marker precision height width more rest) in
    omega
      (arith, length-marked n a r, parts_long parts fill marker precision height width more rest)
parts_long ((n, segment a body) ∷ parts) fill marker precision height width more rest =
    let r = parts_onto parts (frame_header fill marker precision height width more rest) in
    omega (
      arith,
      length-marked n a (big_endian (length body + 2) (body ++ r)),
      length-append body r,
      parts_long parts fill marker precision height width more rest,
    )

starts : (s : Bytes) → 2 ≤ length s → is_jpeg (0xff ∷ 0xd8 ∷ s) ≡ true
unfolding is_jpeg
starts [] l = absurd (omega arith)
starts (a ∷ []) l = absurd (omega arith)
starts (a ∷ b ∷ s) l = refl

-- The bytes of `jpeg` from `offset` on.
module _ (jpeg : Bytes) where
  abbrev Has : ℕ → Bytes → Type 0
  Has offset s = drop offset jpeg ≡ s

  Has-length :
      (offset : ℕ) (s : Bytes) → Has offset s → 0 < length s → offset + length s ≡ length jpeg
  Has-length offset s h l =
      let e : length s ≡ length jpeg - offset = ap length (sym h) ∙ length-drop offset jpeg in
      omega (arith, e, l)

  Has-drop : (offset n : ℕ) (s t : Bytes) → Has offset s → drop n s ≡ t → Has (offset + n) t
  Has-drop offset n s t h e = sym (drop-drop n offset jpeg) ∙ ap (drop n) h ∙ e

  Has-get_elem? :
      (offset i : ℕ) (s : Bytes) → Has offset s → get_elem? jpeg (offset + i) ≡ get_elem? s i
  Has-get_elem? offset i s h = sym (get_elem?-drop jpeg offset i) ∙ ap (λ t. get_elem? t i) h

  Has-big_endian :
      (offset n : ℕ) (rest : Bytes)
      → Has offset (big_endian n rest)
      → big_endian_16 jpeg offset ≡ some n
  unfolding big_endian_16
  Has-big_endian offset n rest h =
      let first : get_elem? jpeg offset ≡ some (n / 256) =
        ap (get_elem? jpeg) (omega arith) ∙ Has-get_elem? offset 0 (big_endian n rest) h in
      rw (first, Has-get_elem? offset 1 (big_endian n rest) h) (ap some (omega arith))

  scan-marked :
      (fuel offset fill marker : ℕ) (rest : Bytes)
      → marker < 0xff
      → 2 ≤ length rest
      → Has offset (marked fill marker rest)
      → (scan (suc fuel) jpeg offset
          ≡ read_marker (scan fuel jpeg) jpeg marker (offset + (fill + 2)))
        × Has (offset + (fill + 2)) rest
  unfolding scan
  scan-marked fuel offset fill marker rest m l h =
      let s = marked fill marker rest in
      let long : length s ≡ fill + 2 + length rest = length-marked fill marker rest in
      let size : offset + length s ≡ length jpeg = Has-length offset s h (omega (arith, long)) in
      let filled : count_fill (drop offset jpeg) ≡ fill + 1 =
        ap count_fill h ∙ count_fill-replicate (fill + 1) marker rest m in
      let read : get_elem? jpeg (offset + (fill + 1)) ≡ some marker =
        Has-get_elem? offset (fill + 1) s h ∙ get_elem?-replicate (fill + 1) marker rest in
      let next : fill + 2 ≡ fill + 1 + 1 = omega arith in
      let behind : offset + (fill + 1) + 1 ≡ offset + (fill + 2) = omega arith in
      let more : ltb (length jpeg) (offset + 4) ≡ false =
        not_ltb (length jpeg) (offset + 4) (omega (arith, size, long)) in
      let inside : leb (length jpeg) (offset + (fill + 1)) ≡ false =
        not_leb (length jpeg) (offset + (fill + 1)) (omega (arith, size, long)) in
      (
        rw more (rw filled (rw (inside, read, behind) refl)),
        Has-drop offset (fill + 2) s rest h
            (ap (λ n. drop n s) next ∙ drop-replicate (fill + 1) marker rest),
      )

  Has-alone :
      (fuel offset fill marker : ℕ) (rest : Bytes)
      → is_standalone marker ≡ true
      → 2 ≤ length rest
      → Has offset (marked fill marker rest)
      → (scan (suc fuel) jpeg offset ≡ scan fuel jpeg (offset + (fill + 2)))
        × Has (offset + (fill + 2)) rest
  unfolding read_marker
  Has-alone fuel offset fill marker rest a l h =
      let (turn, after) =
        scan-marked fuel offset fill marker rest (standalone_small marker a) l h in
      (turn ∙ if_yes _ _ _ a, after)

  read_marker-segment :
      (next : ℕ → Option Dimensions) (offset marker n : ℕ) (rest : Bytes)
      → is_standalone marker ≡ false
      → marker ≢ 0xd9
      → marker ≢ 0xda
      → 2 ≤ n
      → n ≤ length rest + 2
      → Has offset (big_endian n rest)
      → read_marker next jpeg marker offset ≡ (
          if is_start_of_frame marker && leb 7 n
          then read_frame_header jpeg offset
          else next (offset + n))
  unfolding read_marker read_segment
  read_marker-segment next offset marker n rest a e f two inside h =
      let size : offset + length (big_endian n rest) ≡ length jpeg =
        Has-length offset (big_endian n rest) h (omega arith) in
      if_no _ _ _ a
      ∙ if_no _ _ _ (goes_on marker (length jpeg) (offset + 2) e f (omega (arith, size)))
      ∙ rw (Has-big_endian offset n rest h)
          (if_no _ _ _ (fits n (length jpeg) (offset + n) two (omega (arith, size, inside))))

  Has-segment :
      (fuel offset fill marker : ℕ) (body rest : Bytes)
      → IsPart (fill, segment marker body)
      → Has offset (part_onto (fill, segment marker body) rest)
      → (scan (suc fuel) jpeg offset ≡ scan fuel jpeg (offset + (fill + 2) + (length body + 2)))
        × Has (offset + (fill + 2) + (length body + 2)) rest
  Has-segment fuel offset fill marker body rest part h =
      let n = length body + 2 in
      let two : n ≡ suc (suc (length body)) = omega arith in
      let (turn, after) =
        scan-marked fuel offset fill marker (big_endian n (body ++ rest)) part.0 (omega arith) h in
      (
        turn
            ∙ read_marker-segment (scan fuel jpeg) (offset + (fill + 2)) marker n (body ++ rest)
                part.1 part.2 part.3 (omega arith) (omega (arith, length-append body rest)) after
            ∙ rw (part.4) refl,
        Has-drop (offset + (fill + 2)) n (big_endian n (body ++ rest)) rest after
            (ap (λ m. drop m (big_endian n (body ++ rest))) two ∙ drop-append body rest),
      )

  Has-frame_header :
      (fuel offset fill marker precision height width : ℕ) (more rest : Bytes)
      → marker < 0xff
      → is_start_of_frame marker ≡ true
      → 0 < width
      → 0 < height
      → Has offset (frame_header fill marker precision height width more rest)
      → scan (suc fuel) jpeg offset ≡ some (dimensions width height)
  unfolding read_frame_header
  Has-frame_header fuel offset fill marker precision height width more rest m sof pw ph h =
      let n = length more + 7 in
      let rest' = precision ∷ big_endian height (big_endian width (more ++ rest)) in
      let (turn, after) =
        scan-marked fuel offset fill marker (big_endian n rest') m (omega arith) h in
      let at = offset + (fill + 2) in
      let is_height =
        Has-big_endian (at + 3) height (big_endian width (more ++ rest))
          (Has-drop at 3 (big_endian n rest') _ after refl) in
      let is_width =
        Has-big_endian (at + 5) width (more ++ rest)
          (Has-drop at 5 (big_endian n rest') _ after refl) in
      let (plain, not_end, not_scan) = frame_marker marker sof in
      let long : leb 7 n ≡ true = le→leb 7 n (omega arith) in
      turn
      ∙ read_marker-segment (scan fuel jpeg) at marker n rest' plain not_end not_scan (omega arith)
          (omega (arith, length-append more rest)) after
      ∙ rw (sof, long) (rw (is_height, is_width) (rw (both_positive width height pw ph) refl))

  -- The parts are passed one by one; the frame header gives the dimensions.
  scan-parts :
      (parts : List (ℕ × Part)) (fuel offset fill marker precision height width : ℕ)
      (more rest : Bytes)
      → All IsPart parts
      → length parts < fuel
      → marker < 0xff
      → is_start_of_frame marker ≡ true
      → 0 < width
      → 0 < height
      → Has offset (parts_onto parts (frame_header fill marker precision height width more rest))
      → scan fuel jpeg offset ≡ some (dimensions width height)
  scan-parts [] (suc fuel) offset fill marker precision height width more rest ps f m sof pw ph h =
      Has-frame_header fuel offset fill marker precision height width more rest m sof pw ph h
  scan-parts ((n, alone a) ∷ parts) (suc fuel) offset fill marker precision height width more rest
        ps f m sof pw ph h =
      let (turn, after) =
        Has-alone fuel offset n a _ ps.0
          (omega (arith, parts_long parts fill marker precision height width more rest)) h in
      turn
      ∙ scan-parts parts fuel _ fill marker precision height width more rest ps.1 (omega arith) m
          sof pw ph after
  scan-parts ((n, segment a body) ∷ parts) (suc fuel) offset fill marker precision height width more
        rest ps f m sof pw ph h =
      let (turn, after) = Has-segment fuel offset n a body _ ps.0 h in
      turn
      ∙ scan-parts parts fuel _ fill marker precision height width more rest ps.1 (omega arith) m
          sof pw ph after
  scan-parts _ zero _ _ _ _ _ _ _ _ _ f _ _ _ _ _ = absurd (omega arith)

-- A JPEG header that is written as parts that the format allows and a frame header, with any fill
-- bytes between them and anything behind, is read with the width and the height of the frame header,
-- if these are not 0.
pub read_jpeg_dimensions-jpeg_of :
    (parts : List (ℕ × Part)) (fill marker precision height width : ℕ) (more rest : Bytes)
    → All IsPart parts
    → marker < 0xff
    → is_start_of_frame marker ≡ true
    → 0 < width
    → 0 < height
    → read_jpeg_dimensions
        (jpeg_of parts (frame_header fill marker precision height width more rest))
      ≡ some (dimensions width height)
unfolding read_jpeg_dimensions
read_jpeg_dimensions-jpeg_of parts fill marker precision height width more rest ps m sof pw ph =
    let s = parts_onto parts (frame_header fill marker precision height width more rest) in
    let long : length parts + 9 ≤ length s =
      parts_long parts fill marker precision height width more rest in
    rw (starts s (omega (arith, long))) (
      scan-parts (0xff ∷ 0xd8 ∷ s) parts (length (0xff ∷ 0xd8 ∷ s)) 2 fill marker precision height
        width more rest ps (omega (arith, long)) m sof pw ph refl)
