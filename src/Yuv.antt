-- ===== src/Yuv.antt =====
-- native/yuv420_converter.cpp and native/yuv420_converter.h: a cropped YUV_420_888 image, given as
-- three views of memory, is copied to a packed NV21 image.
pub mod Bounds
pub mod Reference
pub mod Convert
pub mod Inside
pub mod Jni
mod Tests
use vcames.Common.{
  ℕ, zero, suc, ◌+◌, ◌-◌, ◌*◌, ◌/◌, ◌%◌, ◌^◌, ◌≤◌, ◌<◌, min, String, ◌≡◌, refl, sym, ap, subst, ◌∙◌,
  ◌≢◌, ◌↔◌, ◌⊎◌, inl, inr, Bool, true, false, not, ◌&&◌, ◌||◌, Option, none, some, List, [], ◌∷◌,
  ◌++◌, map, append-nil, append_assoc, arith, ltb, leb, ◌==◌, if◌then◌else◌, ltb→lt, lt→ltb, leb→le,
  le→leb, ==_iff, Bool-cases, Option-cases, length, is_empty, get_elem?, take, drop, replicate, any,
  all, All, length-append, take-append-drop, length-take, length-drop, take-append, drop-append,
  drop-drop, length-replicate, ℤ, pos, negsuc, ==ℤ_iff, ◌==ℤ◌, to_decimal, to_string, Bytes,
  equal_iff, equal_self, starts_with-drop, starts_with-append, find-split, find-starts_with,
  find-append, find_index-none, find_index-some, find_index-all, find_index-append, bytes, equal,
  starts_with, find, find_index,
}

-- `size_t` arithmetic.
abbrev pub size_mod : ℕ
size_mod = 2 ^ 64

abbrev pub size_max : ℕ
size_max = size_mod - 1

abbrev pub add_size : ℕ → ℕ → ℕ
add_size a b = (a + b) % size_mod

abbrev pub mul_size : ℕ → ℕ → ℕ
mul_size a b = a * b % size_mod

-- The bytes that the process can read, by address.
abbrev pub Memory : Type 0
Memory = ℕ → ℕ

-- The address is `none` for a null pointer.
pub record YuvPlaneView : Type 0 where
  pub address : Option ℕ
  pub limit : ℕ
  pub position : ℕ
  pub row_stride : ℕ
  pub pixel_stride : ℕ

abbrev pub is_null : Option ℕ → Bool
is_null none = true
is_null (some a) = false

-- `CheckedOffset`
unfoldable pub checked_offset : YuvPlaneView → ℕ → ℕ → ℕ → Option ℕ
checked_offset plane x y samples =
    if is_null plane.address
      || plane.row_stride == 0
      || plane.pixel_stride == 0
      || ltb plane.limit plane.position
      || samples == 0
    then none
    else if ltb ((size_max - plane.position) / plane.row_stride) y
    then none
    else (let row = add_size plane.position (mul_size y plane.row_stride) in
        if ltb ((size_max - row) / plane.pixel_stride) x
        then none
        else (let first = add_size row (mul_size x plane.pixel_stride) in
            if ltb ((size_max - first) / plane.pixel_stride) (samples - 1)
            then none
            else if leb plane.limit (add_size first (mul_size (samples - 1) plane.pixel_stride))
            then none
            else some first))

pub data YuvError : Type 0 where
  bad_dimensions bad_output_size y_out_of_bounds uv_out_of_bounds : YuvError

-- What a call leaves: the bytes that it has written from the start of the output on, and its error.
pub record Converted : Type 0 where
  pub written : Bytes
  pub error : Option YuvError

abbrev pub fails : YuvError → Converted
fails e = record { written = []; error = some e }

abbrev pub done : Converted
done = record { written = []; error = none }

abbrev pub in_front : Bytes → Converted → Converted
in_front row c = record c { written = row ++ c.written }

-- `n` bytes from an address on, a step apart: `memcpy` at step 1, and the loop over columns.
unfoldable pub strided : Memory → ℕ → ℕ → ℕ → Bytes
strided mem a step zero = []
strided mem a step (suc n) = mem a ∷ strided mem (a + step) step n

abbrev pub base : YuvPlaneView → ℕ
base plane = elim plane.address [ none ↦ 0 | some a ↦ a ]

unfoldable pub luma_row : Memory → YuvPlaneView → ℕ → ℕ → Bytes
luma_row mem y source width =
    if y.pixel_stride == 1
    then strided mem (base y + source) 1 width
    else strided mem (base y + source) y.pixel_stride width

-- The rows of the Y plane that are left, and then what follows them.
unfoldable pub luma_rows : Memory → YuvPlaneView → ℕ → ℕ → ℕ → ℕ → ℕ → Converted → Converted
unfolding luma_row
luma_rows mem y crop_left crop_top width zero row_index rest = rest
luma_rows mem y crop_left crop_top width (suc rows) row_index rest =
    elim (checked_offset y crop_left (add_size crop_top row_index) width) [
      | none ↦ fails y_out_of_bounds
      | some source ↦
          in_front (luma_row mem y source width)
            (luma_rows mem y crop_left crop_top width rows (row_index + 1) rest)
    ]

-- The loop over columns: a V byte and a U byte for each.
unfoldable pub interleaved : Memory → ℕ → ℕ → ℕ → ℕ → ℕ → Bytes
interleaved mem v v_step u u_step zero = []
interleaved mem v v_step u u_step (suc n) =
    mem v ∷ mem u ∷ interleaved mem (v + v_step) v_step (u + u_step) u_step n

-- The V row already holds VU pairs.
unfoldable pub has_pairs : YuvPlaneView → YuvPlaneView → ℕ → ℕ → ℕ → Bool
has_pairs u v u_source v_source width =
    u.pixel_stride == 2
    && v.pixel_stride == 2
    && base v + v_source + 1 == base u + u_source
    && leb v_source v.limit
    && leb width (v.limit - v_source)

unfoldable pub chroma_row : Memory → YuvPlaneView → YuvPlaneView → ℕ → ℕ → ℕ → Bytes
unfolding has_pairs interleaved
chroma_row mem u v u_source v_source width =
    if has_pairs u v u_source v_source width
    then strided mem (base v + v_source) 1 width
    else interleaved mem (base v + v_source) v.pixel_stride (base u + u_source) u.pixel_stride
        (width / 2)

unfoldable pub chroma_rows : Memory → YuvPlaneView → YuvPlaneView → ℕ → ℕ → ℕ → ℕ → ℕ → Converted
unfolding chroma_row
chroma_rows mem u v left top width zero row_index = done
chroma_rows mem u v left top width (suc rows) row_index =
    elim (checked_offset u left (add_size top row_index) (width / 2)) [
      | none ↦ fails uv_out_of_bounds
      | some u_source ↦ elim (checked_offset v left (add_size top row_index) (width / 2)) [
        | none ↦ fails uv_out_of_bounds
        | some v_source ↦
            in_front (chroma_row mem u v u_source v_source width)
              (chroma_rows mem u v left top width rows (row_index + 1))
      ]
    ]

abbrev pub is_odd : ℕ → Bool
is_odd n = n % 2 == 1

-- `ConvertYuv420ToNv21`; the flag is `output != nullptr`. The crop and the size are `uint32_t`.
unfoldable pub convert_yuv420_to_nv21 :
    Memory → YuvPlaneView → YuvPlaneView → YuvPlaneView → ℕ → ℕ → ℕ → ℕ → Bool → ℕ → Converted
unfolding luma_rows chroma_rows
convert_yuv420_to_nv21 mem y u v crop_left crop_top width height given output_size =
    if not given
      || width == 0
      || height == 0
      || is_odd width
      || is_odd height
      || is_odd crop_left
      || is_odd crop_top
    then fails bad_dimensions
    else (let pixels = mul_size width height in
        if not (pixels / width == height)
          || ltb (size_max / 3) pixels
          || not (output_size == mul_size pixels 3 / 2)
        then fails bad_output_size
        else luma_rows mem y crop_left crop_top width height 0
            (chroma_rows mem u v (crop_left / 2) (crop_top / 2) width (height / 2) 0))
