-- ===== src/Yuv/Tests.antt =====
-- A four by two image with packed pairs, and the theorems at it.
use vcames.Common.{
  ℕ, ◌+◌, ◌-◌, ◌*◌, ◌≤◌, ◌<◌, ◌≡◌, refl, ◌↔◌, true, false, none, some, [], ◌∷◌, arith, length, pos,
  negsuc, ltb, leb, ◌||◌, if◌then◌else◌,
}
use vcames.Yuv.{
  YuvPlaneView, Memory, checked_offset, strided, convert_yuv420_to_nv21, uv_out_of_bounds,
  bad_output_size, bad_dimensions,
}
use vcames.Yuv.Jni.{
  PlaneArguments, plane, NativeResult, native_convert, AgreeInside, native_convert-inside,
  native_convert-nv21_of,
}
use vcames.Yuv.Bounds.{InBounds, checked_offset_iff}
use vcames.Yuv.Reference.{nv21_of}
use vcames.Yuv.Convert.{
  IsNv21Size, RowsInside, convert_yuv420_to_nv21-nv21_of, convert_yuv420_to_nv21-none,
}

-- Every byte tells its address.
abbrev mem : Memory
mem a = a

abbrev y_plane : YuvPlaneView
y_plane = record { address = some 100; limit = 12; position = 0; row_stride = 6; pixel_stride = 1 }

abbrev v_plane : YuvPlaneView
v_plane = record { address = some 200; limit = 4; position = 0; row_stride = 4; pixel_stride = 2 }

abbrev u_plane : YuvPlaneView
u_plane = record { address = some 201; limit = 3; position = 0; row_stride = 4; pixel_stride = 2 }

abbrev short_plane : YuvPlaneView
short_plane = record u_plane { limit = 2 }

converts : convert_yuv420_to_nv21 mem y_plane u_plane v_plane 0 0 4 2 true 12 ≡ record {
  written = 100 ∷ 101 ∷ 102 ∷ 103 ∷ 106 ∷ 107 ∷ 108 ∷ 109 ∷ 200 ∷ 201 ∷ 202 ∷ 203 ∷ [];
  error = none;
}
unfolding convert_yuv420_to_nv21 checked_offset strided
converts = refl

refuses_short_plane :
    (convert_yuv420_to_nv21 mem y_plane short_plane v_plane 0 0 4 2 true 12).error
    ≡ some uv_out_of_bounds
unfolding convert_yuv420_to_nv21 checked_offset
refuses_short_plane = refl

refuses_odd_crop :
    (convert_yuv420_to_nv21 mem y_plane u_plane v_plane 1 0 4 2 true 12).error ≡ some bad_dimensions
unfolding convert_yuv420_to_nv21
refuses_odd_crop = refl

refuses_wrong_size :
    (convert_yuv420_to_nv21 mem y_plane u_plane v_plane 0 0 4 2 true 11).error
    ≡ some bad_output_size
unfolding convert_yuv420_to_nv21
refuses_wrong_size = refl

checked_offset_iff_example : (checked_offset y_plane 0 1 4 ≡ some 6) ↔ InBounds y_plane 0 1 4 6
checked_offset_iff_example = checked_offset_iff y_plane 0 1 4 6 (omega arith)

no_error : (convert_yuv420_to_nv21 mem y_plane u_plane v_plane 0 0 4 2 true 12).error ≡ none
unfolding convert_yuv420_to_nv21 checked_offset
no_error = refl

convert_yuv420_to_nv21-nv21_of_example :
    ((convert_yuv420_to_nv21 mem y_plane u_plane v_plane 0 0 4 2 true 12).written
      ≡ nv21_of mem y_plane u_plane v_plane 0 0 4 2)
    × (length (convert_yuv420_to_nv21 mem y_plane u_plane v_plane 0 0 4 2 true 12).written ≡ 12)
convert_yuv420_to_nv21-nv21_of_example =
    convert_yuv420_to_nv21-nv21_of mem y_plane u_plane v_plane 0 0 4 2 true 12 (omega arith)
      (omega arith) (omega arith) (omega arith) (omega arith) no_error

size_12 : IsNv21Size 0 0 4 2 12
size_12 = record {
  some_columns = omega arith;
  some_rows = omega arith;
  even_width = refl;
  even_height = refl;
  even_left = refl;
  even_top = refl;
  packed_size = refl;
  fits = omega arith;
}

inside_row :
    (p : YuvPlaneView) (a x y n : ℕ)
    → p.address ≡ some a
    → 0 < p.row_stride
    → 0 < p.pixel_stride
    → p.position ≤ p.limit
    → 0 < n
    → p.position + y * p.row_stride + x * p.pixel_stride + (n - 1) * p.pixel_stride < p.limit
    → (first : ℕ) × InBounds p x y n first
inside_row p a x y n e r q l k h = (
  p.position + y * p.row_stride + x * p.pixel_stride,
  record {
    readable = rw e refl;
    some_rows = r;
    some_pixels = q;
    starts = l;
    some_samples = k;
    first_is = refl;
    last_inside = h;
  },
)

y_rows : RowsInside y_plane 0 0 4 2
y_rows r h =
    inside_row y_plane 100 0 (0 + r) 4 refl (omega arith) (omega arith) (omega arith) (omega arith)
      (omega arith)

v_rows : RowsInside v_plane 0 0 2 1
v_rows r h =
    inside_row v_plane 200 0 (0 + r) 2 refl (omega arith) (omega arith) (omega arith) (omega arith)
      (omega arith)

u_rows : RowsInside u_plane 0 0 2 1
u_rows r h =
    inside_row u_plane 201 0 (0 + r) 2 refl (omega arith) (omega arith) (omega arith) (omega arith)
      (omega arith)

convert_yuv420_to_nv21-none_example :
    (convert_yuv420_to_nv21 mem y_plane u_plane v_plane 0 0 4 2 true 12).error ≡ none
convert_yuv420_to_nv21-none_example =
    convert_yuv420_to_nv21-none mem y_plane u_plane v_plane 0 0 4 2 true 12 (omega arith)
      (omega arith) (omega arith) (omega arith) (omega arith) refl size_12 y_rows u_rows v_rows

abbrev arguments : ℕ → ℕ → ℕ → ℕ → PlaneArguments
arguments address limit row_stride pixel_stride = record {
  buffer = record { address = some address; capacity = pos limit };
  limit = pos limit;
  position = pos 0;
  row_stride = pos row_stride;
  pixel_stride = pos pixel_stride;
}

abbrev java_call : NativeResult
java_call =
    native_convert mem (arguments 100 12 6 1) (arguments 201 3 4 2) (arguments 200 4 4 2) (pos 0)
      (pos 0) (pos 4) (pos 2) (some 12) true

refuses_negative_crop :
    (native_convert mem
      (arguments 100 12 6 1)
      (arguments 201 3 4 2)
      (arguments 200 4 4 2)
      (negsuc 0)
      (pos 0)
      (pos 4)
      (pos 2)
      (some 12)
      true).converted
    ≡ false
unfolding native_convert
refuses_negative_crop = refl

java_told : java_call.converted ≡ true
unfolding native_convert convert_yuv420_to_nv21 checked_offset
java_told = refl

native_convert-nv21_of_example :
    (java_call.written
      ≡ nv21_of mem
          (plane (arguments 100 12 6 1))
          (plane (arguments 201 3 4 2))
          (plane (arguments 200 4 4 2))
          0
          0
          4
          2)
    × (length java_call.written ≡ 12)
native_convert-nv21_of_example =
    native_convert-nv21_of mem (arguments 100 12 6 1) (arguments 201 3 4 2) (arguments 200 4 4 2)
      (pos 0) (pos 0) (pos 4) (pos 2) 12 true (omega arith) (omega arith) (omega arith)
      (omega arith) (omega arith) java_told

-- The memory with other bytes in front of the planes and behind them.
abbrev other_mem : Memory
other_mem a = if ltb a 100 || leb 204 a then 0 else a

planes_agree :
    (first size : ℕ)
    → 100 ≤ first
    → first + size ≤ 204
    → AgreeInside mem other_mem (record { address = some first; capacity = pos size })
planes_agree first size from to address capacity i is_address is_capacity inside =
    let same_address : first ≡ address = cc is_address in
    let same_capacity : size ≡ capacity = cc is_capacity in
    let fits : (ltb (address + i) 100 || leb 204 (address + i)) ≡ false = ground arith in
    rw fits refl

native_convert-inside_example :
    java_call
    ≡ native_convert other_mem
        (arguments 100 12 6 1)
        (arguments 201 3 4 2)
        (arguments 200 4 4 2)
        (pos 0)
        (pos 0)
        (pos 4)
        (pos 2)
        (some 12)
        true
native_convert-inside_example =
    native_convert-inside mem other_mem (arguments 100 12 6 1) (arguments 201 3 4 2)
      (arguments 200 4 4 2) (pos 0) (pos 0) (pos 4) (pos 2) (some 12) true (omega arith)
      (omega arith) (omega arith) (planes_agree 100 12 (omega arith) (omega arith))
      (planes_agree 201 3 (omega arith) (omega arith))
      (planes_agree 200 4 (omega arith) (omega arith))
