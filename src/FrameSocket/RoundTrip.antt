-- ===== src/FrameSocket/RoundTrip.antt =====
-- ReadExact and HandleFrameClient of daemon/src/main.cpp against the frames that a producer writes.
use vcames.Common.{
  ℕ, zero, suc, ◌+◌, ◌/◌, ◌%◌, ◌^◌, ◌≤◌, ◌<◌, ◌≡◌, refl, sym, ap, ◌∙◌, true, false, not, ◌||◌,
  Option, none, some, List, [], ◌∷◌, ◌++◌, arith, ◌==◌, length, drop, All, length-append, ℤ, Bytes,
  bytes, equal,
}
use vcames.V4l2Sink.{to_int}
use vcames.Engine.{Engine, Pushed, PushError, push_nv21_frame, max_frame_bytes}
use vcames.FrameSocket.{
  TypedFrame, word_32, shift_in, to_int_64, is_bad_metadata, is_bad_size, read_exact, read_typed,
  typed_loop, handle_magic, handle_frame_client,
}
use vcames.FrameSocket.Read.{read_exact-append, read_exact_lem}

-- `htonl`
pub big_endian_32 : ℕ → Bytes
big_endian_32 n = n / 16777216 ∷ n / 65536 % 256 ∷ n / 256 % 256 ∷ n % 256 ∷ []

pub big_endian_64 : ℕ → Bytes
big_endian_64 n = big_endian_32 (n / 2 ^ 32) ++ big_endian_32 (n % 2 ^ 32)

-- The header of a typed frame: format, width, height, the two strides, and the size.
pub fields_of : TypedFrame → Bytes
fields_of f =
    big_endian_32 2
    ++ big_endian_32 f.width
    ++ big_endian_32 f.height
    ++ big_endian_32 f.width
    ++ big_endian_32 f.width
    ++ big_endian_32 (length f.payload)

pub encode_onto : TypedFrame → Bytes → Bytes
encode_onto f rest = fields_of f ++ (big_endian_64 f.timestamp ++ (f.payload ++ rest))

pub frames_of : List TypedFrame → Bytes
frames_of [] = []
frames_of (f ∷ fs) = encode_onto f (frames_of fs)

-- What the protocol can carry.
pub record IsCarried (f : TypedFrame) : Type 0 where
  pub some_columns : 0 < f.width
  pub some_rows : 0 < f.height
  pub width_fits : f.width < 2 ^ 32
  pub height_fits : f.height < 2 ^ 32
  pub timestamp_fits : f.timestamp < 2 ^ 64
  pub some_bytes : 4 ≤ length f.payload
  pub few_bytes : length f.payload ≤ max_frame_bytes

word_32-big_endian_32 : (n : ℕ) (rest : Bytes) → n < 2 ^ 32 → word_32 (big_endian_32 n ++ rest) ≡ n
unfolding word_32 big_endian_32
word_32-big_endian_32 n rest h = omega arith

shift_in-big_endian_64 : (n : ℕ) → n < 2 ^ 64 → shift_in 0 (big_endian_64 n) ≡ n
unfolding shift_in big_endian_64 big_endian_32
shift_in-big_endian_64 n h = omega arith

good_words :
    (format width height y_stride uv_stride : ℕ)
    → format ≡ 2
    → 0 < width
    → 0 < height
    → y_stride ≡ width
    → uv_stride ≡ width
    → (not (format == 2)
        || width == 0
        || height == 0
        || not (y_stride == width)
        || not (uv_stride == width))
      ≡ false
good_words format width height y_stride uv_stride a b c d e = ground arith

module _ (f : TypedFrame) (c : IsCarried f) where
  word_of_width : word_32 (drop 4 (fields_of f)) ≡ f.width
  unfolding fields_of big_endian_32
  word_of_width = word_32-big_endian_32 f.width _ c.width_fits

  word_of_height : word_32 (drop 8 (fields_of f)) ≡ f.height
  unfolding fields_of big_endian_32
  word_of_height = word_32-big_endian_32 f.height _ c.height_fits

  word_of_y_stride : word_32 (drop 12 (fields_of f)) ≡ f.width
  unfolding fields_of big_endian_32
  word_of_y_stride = word_32-big_endian_32 f.width _ c.width_fits

  word_of_uv_stride : word_32 (drop 16 (fields_of f)) ≡ f.width
  unfolding fields_of big_endian_32
  word_of_uv_stride = word_32-big_endian_32 f.width _ c.width_fits

  word_of_size : word_32 (drop 20 (fields_of f)) ≡ length f.payload
  unfolding fields_of big_endian_32
  word_of_size = word_32-big_endian_32 (length f.payload) [] (omega (arith, c.few_bytes))

  word_of_format : word_32 (fields_of f) ≡ 2
  unfolding fields_of word_32 big_endian_32
  word_of_format = refl

  metadata_good : is_bad_metadata (fields_of f) ≡ false
  unfolding is_bad_metadata
  metadata_good =
      good_words (word_32 (fields_of f)) (word_32 (drop 4 (fields_of f)))
        (word_32 (drop 8 (fields_of f))) (word_32 (drop 12 (fields_of f)))
        (word_32 (drop 16 (fields_of f))) word_of_format (rw word_of_width c.some_columns)
        (rw word_of_height c.some_rows) (word_of_y_stride ∙ sym word_of_width)
        (word_of_uv_stride ∙ sym word_of_width)

  size_good : is_bad_size (length f.payload) ≡ false
  unfolding is_bad_size
  size_good = ground (arith, c.some_bytes, c.few_bytes)

  length-fields_of : length (fields_of f) ≡ 24
  unfolding fields_of big_endian_32
  length-fields_of = refl

length-big_endian_64 : (n : ℕ) → length (big_endian_64 n) ≡ 8
unfolding big_endian_64 big_endian_32
length-big_endian_64 n = refl

-- The frames go to the engine one by one, until it refuses one.
unfoldable pub push_all : (ℕ → ℤ) → ℕ → List TypedFrame → Engine → Engine
push_all clock number [] engine = engine
push_all clock number (f ∷ fs) engine =
    let pushed =
      push_nv21_frame (clock number) f.payload (to_int f.width) (to_int f.height)
        (to_int_64 f.timestamp) engine in
    elim pushed.error [
      | some why ↦ pushed.engine
      | none ↦ push_all clock (number + 1) fs pushed.engine
    ]

frames_long : (fs : List TypedFrame) → length fs ≤ length (frames_of fs)
unfolding frames_of encode_onto fields_of big_endian_32 big_endian_64
frames_long [] = omega arith
frames_long (f ∷ fs) = omega (arith, frames_long fs, length-append f.payload (frames_of fs))

module _ (chunk : ℕ → ℕ) where
  read_first :
      (n : ℕ) (s rest : Bytes) → length s ≡ n → read_exact chunk n (s ++ rest) ≡ some (s, rest)
  read_first n s rest e =
      ap (λ m. read_exact chunk m (s ++ rest)) (sym e) ∙ read_exact-append chunk s rest

  -- A frame that was written is read back, whatever follows it.
  read_typed-encode_onto :
      (f : TypedFrame) (rest : Bytes)
      → IsCarried f
      → read_typed chunk (encode_onto f rest) ≡ some (f, rest)
  unfolding read_typed encode_onto
  read_typed-encode_onto f rest c =
      let time = big_endian_64 f.timestamp in
      rw (read_first 24 (fields_of f) (time ++ (f.payload ++ rest)) (length-fields_of f c)) (
        rw (read_first 8 time (f.payload ++ rest) (length-big_endian_64 f.timestamp)) (
          rw (metadata_good f c) (
            rw (word_of_size f c) (
              rw (size_good f c) (
                rw (read_first (length f.payload) f.payload rest refl) (
                  rw
                    (
                      word_of_width f c,
                      word_of_height f c,
                      shift_in-big_endian_64 f.timestamp c.timestamp_fits,
                    )
                    refl))))))

  read_typed-nil : read_typed chunk [] ≡ none
  unfolding read_typed
  read_typed-nil = rw (read_exact_lem chunk 24 []) refl

  module _ (clock : ℕ → ℤ) where
    typed_loop-frames_of :
        (fs : List TypedFrame) (fuel number : ℕ) (engine : Engine)
        → All IsCarried fs
        → length fs ≤ fuel
        → typed_loop chunk clock fuel number (frames_of fs) engine ≡ push_all clock number fs engine
    unfolding typed_loop frames_of push_all
    typed_loop-frames_of [] zero number engine cs l = refl
    typed_loop-frames_of [] (suc fuel) number engine cs l = rw (read_typed-nil, typed_loop) refl
    typed_loop-frames_of (f ∷ fs) zero number engine cs l = absurd (omega arith)
    typed_loop-frames_of (f ∷ fs) (suc fuel) number engine cs l =
        rw (read_typed-encode_onto f (frames_of fs) cs.0, typed_loop)
          (after_push
            (push_nv21_frame (clock number) f.payload (to_int f.width) (to_int f.height)
              (to_int_64 f.timestamp) engine)
            (λ e. typed_loop-frames_of fs fuel (number + 1) e cs.1 (omega arith)))
      where
        after_push :
            (p : Pushed)
            → ((e : Engine)
                → typed_loop chunk clock fuel (number + 1) (frames_of fs) e
                  ≡ push_all clock (number + 1) fs e)
            → elim p.error [
              | some why ↦ p.engine
              | none ↦ typed_loop chunk clock fuel (number + 1) (frames_of fs) p.engine
            ]
              ≡ elim p.error [
                | some why ↦ p.engine
                | none ↦ push_all clock (number + 1) fs p.engine
              ]
        after_push p ih = by_error p.error
          where
            by_error :
                (o : Option PushError)
                → elim o [
                  | some why ↦ p.engine
                  | none ↦ typed_loop chunk clock fuel (number + 1) (frames_of fs) p.engine
                ]
                  ≡ elim o [ some why ↦ p.engine | none ↦ push_all clock (number + 1) fs p.engine ]
            by_error none = ih p.engine
            by_error (some why) = refl

    -- A client that may connect, says VCF2 and writes frames that the protocol can carry, and then ends:
    -- the engine is given exactly these frames, in order, until it refuses one, however the kernel cuts
    -- the connection into reads.
    pub handle_frame_client-frames_of :
        (fs : List TypedFrame) (engine : Engine)
        → All IsCarried fs
        → handle_frame_client chunk clock true (bytes "VCF2" ++ frames_of fs) engine
          ≡ push_all clock 0 fs engine
    unfolding handle_frame_client handle_magic bytes equal
    handle_frame_client-frames_of fs engine cs =
        rw (read_first 4 (bytes "VCF2") (frames_of fs) refl)
          (typed_loop-frames_of fs (length (frames_of fs)) 0 engine cs (frames_long fs))
