-- ===== src/Yuv/Jni.antt =====
-- app/src/main/cpp/yuv420_jni.cpp: the conversion as Java calls it, with `jint` arguments and direct
-- buffers. What the virtual machine answers is an argument.
use vcames.Common.{
  ℕ, Bool-cases, inl, inr, ◌+◌, ◌^◌, ◌≤◌, ◌<◌, ◌≡◌, refl, ap, ◌∙◌, Bool, true, false, not, ◌||◌,
  Option, none, some, [], arith, ltb, ◌==◌, if◌then◌else◌, length, ℤ, pos, negsuc, Bytes,
}
use vcames.Yuv.{base, YuvPlaneView, Memory, Converted, is_null, convert_yuv420_to_nv21}
use vcames.Yuv.Inside.{Agree, convert_yuv420_to_nv21-Agree}
use vcames.Yuv.Reference.{nv21_of}
use vcames.Yuv.Convert.{convert_yuv420_to_nv21-nv21_of}

-- `GetDirectBufferAddress` and `GetDirectBufferCapacity` of a buffer.
pub record DirectBuffer : Type 0 where
  pub address : Option ℕ
  pub capacity : ℤ

pub record PlaneArguments : Type 0 where
  pub buffer : DirectBuffer
  pub limit : ℤ
  pub position : ℤ
  pub row_stride : ℤ
  pub pixel_stride : ℤ

-- A `jint` as a `size_t`, or what the code takes for a negative one.
abbrev pub or_else : ℕ → ℤ → ℕ
or_else default (pos n) = n
or_else default (negsuc n) = default

abbrev pub exceeds : ℕ → ℤ → Bool
exceeds limit (pos capacity) = ltb capacity limit
exceeds limit (negsuc capacity) = true

-- `Plane`
unfoldable pub plane : PlaneArguments → YuvPlaneView
plane a =
    let limit = or_else 0 a.limit in
    record {
      address = if exceeds limit a.buffer.capacity then none else a.buffer.address;
      limit = limit;
      position = or_else limit a.position;
      row_stride = or_else 0 a.row_stride;
      pixel_stride = or_else 0 a.pixel_stride;
    }

-- The flag that Java gets, and the bytes that are written to its array.
pub record NativeResult : Type 0 where
  pub converted : Bool
  pub written : Bytes

abbrev refused : NativeResult
refused = record { converted = false; written = [] }

abbrev is_negative : ℤ → Bool
is_negative (pos n) = false
is_negative (negsuc n) = true

abbrev is_none {ℓ} : {A : Type ℓ} → Option A → Bool
is_none none = true
is_none (some a) = false

abbrev as_result : Converted → NativeResult
as_result c = record { converted = is_none c.error; written = c.written }

-- `nativeConvert`: `output` is the length of the array, if there is one, and `pinned` says whether the
-- virtual machine gives its bytes.
unfoldable pub native_convert :
    Memory
    → PlaneArguments
    → PlaneArguments
    → PlaneArguments
    → ℤ
    → ℤ
    → ℤ
    → ℤ
    → Option ℕ
    → Bool
    → NativeResult
unfolding plane
native_convert mem y u v crop_left crop_top width height none pinned = refused
native_convert mem y u v crop_left crop_top width height (some output_size) pinned =
    if is_negative crop_left
      || is_negative crop_top
      || or_else 0 width == 0
      || or_else 0 height == 0
    then refused
    else if is_null (plane y).address || is_null (plane u).address || is_null (plane v).address
    then refused
    else if not pinned
    then refused
    else as_result (
        convert_yuv420_to_nv21 mem (plane y) (plane u) (plane v) (or_else 0 crop_left)
          (or_else 0 crop_top) (or_else 0 width) (or_else 0 height) true output_size)

-- Two memories with the same bytes inside a direct buffer, as its capacity says.
abbrev pub AgreeInside : Memory → Memory → DirectBuffer → Type 0
AgreeInside mem mem' b =
    (address capacity i : ℕ)
    → b.address ≡ some address
    → b.capacity ≡ pos capacity
    → i < capacity
    → mem (address + i) ≡ mem' (address + i)

null_or :
    (t : Bool) (o : Option ℕ)
    → is_null (if t then none else o) ≡ false
    → (t ≡ false) × ((a : ℕ) × (o ≡ some a))
null_or true o h = cc
null_or false none h = cc
null_or false (some a) h = (refl, (a, refl))

within :
    (limit : ℕ) (capacity : ℤ)
    → exceeds limit capacity ≡ false
    → (c : ℕ) × (capacity ≡ pos c) × (limit ≤ c)
within limit (pos c) h = (c, refl, ground arith)
within limit (negsuc c) h = cc

plane-Agree :
    (mem mem' : Memory) (a : PlaneArguments)
    → is_null (plane a).address ≡ false
    → AgreeInside mem mem' a.buffer
    → Agree mem mem' (plane a)
unfolding plane
plane-Agree mem mem' a readable same i h =
    let (fits, (address, is_address)) =
      null_or (exceeds (or_else 0 a.limit) a.buffer.capacity) a.buffer.address readable in
    let (c, is_c, room) = within (or_else 0 a.limit) a.buffer.capacity fits in
    let based : base (plane a) ≡ address = rw (fits, is_address) refl in
    rw based (same address c i is_address is_c (omega (arith, h, room)))

-- Whatever integers Java passes: what it gets, and what its array holds, depends on no byte outside the
-- three direct buffers, as their capacities say: two memories that agree inside them give the same result,
-- also where whole VU pairs are copied. For limits below 2^31, as every `jint` is.
pub native_convert-inside :
    (mem mem' : Memory) (y u v : PlaneArguments) (crop_left crop_top width height : ℤ)
    (output : Option ℕ) (pinned : Bool)
    → or_else 0 y.limit < 2 ^ 31
    → or_else 0 u.limit < 2 ^ 31
    → or_else 0 v.limit < 2 ^ 31
    → AgreeInside mem mem' y.buffer
    → AgreeInside mem mem' u.buffer
    → AgreeInside mem mem' v.buffer
    → native_convert mem y u v crop_left crop_top width height output pinned
      ≡ native_convert mem' y u v crop_left crop_top width height output pinned
unfolding native_convert plane
native_convert-inside mem mem' y u v crop_left crop_top width height none pinned ly lu lv same_y
      same_u same_v =
    refl
native_convert-inside mem mem' y u v crop_left crop_top width height (some size) pinned ly lu lv
      same_y same_u same_v =
    elim (Bool-cases
      (is_null (plane y).address || is_null (plane u).address || is_null (plane v).address)) [
        | inl null ↦ rw (native_convert, null) refl
        | inr readable ↦
            let same =
              convert_yuv420_to_nv21-Agree mem mem' (plane y) (plane u) (plane v)
                (or_else 0 crop_left) (or_else 0 crop_top) (or_else 0 width) (or_else 0 height) true
                size (omega (arith, ly)) (omega (arith, lu)) (omega (arith, lv))
                (plane-Agree mem mem' y (ground arith) same_y)
                (plane-Agree mem mem' u (ground arith) same_u)
                (plane-Agree mem mem' v (ground arith) same_v) in
            rw (native_convert, same) refl
      ]

three_guards :
    (p q r : Bool) (c : Converted)
    → (if p then refused else if q then refused else if r then refused else as_result c).converted
      ≡ true
    → (c.error ≡ none)
      × ((if p then refused else if q then refused else if r then refused else as_result c).written
          ≡ c.written)
three_guards true q r c h = cc
three_guards false true r c h = cc
three_guards false false true c h = cc
three_guards false false false c h = (none_of c.error h, refl)
  where
    none_of : {A : Type 0} (o : Option A) → is_none o ≡ true → o ≡ none
    none_of none h = refl
    none_of (some a) h = cc

-- When Java is told that the conversion succeeded, its array holds the packed NV21 image of the crop
-- and is filled by it; for `jint` limits and sizes.
pub native_convert-nv21_of :
    (mem : Memory) (y u v : PlaneArguments) (crop_left crop_top width height : ℤ) (output_size : ℕ)
    (pinned : Bool)
    → or_else 0 y.limit < 2 ^ 31
    → or_else 0 u.limit < 2 ^ 31
    → or_else 0 v.limit < 2 ^ 31
    → or_else 0 crop_top < 2 ^ 31
    → or_else 0 height < 2 ^ 31
    → (native_convert mem y u v crop_left crop_top width height (some output_size) pinned).converted
      ≡ true
    → ((native_convert mem y u v crop_left crop_top width height (some output_size) pinned).written
        ≡ nv21_of mem
            (plane y)
            (plane u)
            (plane v)
            (or_else 0 crop_left)
            (or_else 0 crop_top)
            (or_else 0 width)
            (or_else 0 height))
      × (length
            (native_convert mem y u v crop_left crop_top width height
              (some output_size)
              pinned).written
          ≡ output_size)
unfolding native_convert plane
native_convert-nv21_of mem y u v crop_left crop_top width height output_size pinned ly lu lv lt lh
      h =
    let (no_error, same) =
      three_guards
        (is_negative crop_left
          || is_negative crop_top
          || or_else 0 width == 0
          || or_else 0 height == 0)
        (is_null (plane y).address || is_null (plane u).address || is_null (plane v).address)
        (not pinned) _ h in
    let (image, filled) =
      convert_yuv420_to_nv21-nv21_of mem (plane y) (plane u) (plane v) (or_else 0 crop_left)
        (or_else 0 crop_top) (or_else 0 width) (or_else 0 height) true output_size
        (omega (arith, ly)) (omega (arith, lu)) (omega (arith, lv)) (omega (arith, lt))
        (omega (arith, lh)) no_error in
    (same ∙ image, ap length same ∙ filled)
