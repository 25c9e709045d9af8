-- ===== src/FrameSocket.antt =====
-- The frame socket of daemon/src/main.cpp: ReadExact and HandleFrameClient. A connection is the bytes
-- that the client sends before it ends, fails or is too slow; how many of them a `read` gives is a
-- parameter.
pub mod Read
pub mod RoundTrip
mod Tests
use vcames.Common.{
  ℕ, zero, suc, ◌+◌, ◌-◌, ◌*◌, ◌/◌, ◌%◌, ◌^◌, ◌≤◌, ◌<◌, min, String, ◌≡◌, refl, sym, ap, subst, ◌∙◌,
  ◌≢◌, ◌↔◌, ◌⊎◌, inl, inr, Bool, true, false, not, ◌&&◌, ◌||◌, Option, none, some, List, [], ◌∷◌,
  ◌++◌, map, append-nil, append_assoc, arith, ltb, leb, ◌==◌, if◌then◌else◌, ltb→lt, lt→ltb, leb→le,
  le→leb, ==_iff, Bool-cases, Option-cases, length, is_empty, get_elem?, take, drop, replicate, any,
  all, All, length-append, take-append-drop, length-take, length-drop, take-append, drop-append,
  drop-drop, length-replicate, ℤ, pos, negsuc, ==ℤ_iff, ◌==ℤ◌, to_decimal, to_string, Bytes,
  equal_iff, equal_self, starts_with-drop, starts_with-append, find-split, find-starts_with,
  find-append, find_index-none, find_index-some, find_index-all, find_index-append, bytes, equal,
  starts_with, find, find_index,
}
use vcames.Common.Partial.{◌>>=◌}
use vcames.V4l2Sink.{to_int}
use vcames.Engine.{Engine, Pushed, push_frame, push_nv21_frame, max_frame_bytes}

-- `IsAllowedPeer` on Android, from the credentials and `g_extra_allowed_uid`.
unfoldable pub is_allowed_peer : Option ℕ → ℕ → Bool
is_allowed_peer none extra_allowed_uid = false
is_allowed_peer (some uid) extra_allowed_uid = uid == 0 || uid == 1000 || uid == extra_allowed_uid

-- `ntohl` of four bytes of a buffer.
unfoldable pub word_32 : Bytes → ℕ
word_32 (a ∷ b ∷ c ∷ d ∷ s) = ((a * 256 + b) * 256 + c) * 256 + d
word_32 _ = 0

-- The timestamp: bytes shifted in, most significant first, in 64 bits.
unfoldable pub shift_in : ℕ → Bytes → ℕ
shift_in parsed_timestamp [] = parsed_timestamp
shift_in parsed_timestamp (c ∷ s) = shift_in ((parsed_timestamp * 256 + c) % 2 ^ 64) s

-- `static_cast<int64_t>` of a `uint64_t`
unfoldable pub to_int_64 : ℕ → ℤ
to_int_64 n = if ltb n (2 ^ 63) then pos n else negsuc (2 ^ 64 - 1 - n)

pub record TypedFrame : Type 0 where
  pub width : ℕ
  pub height : ℕ
  pub timestamp : ℕ
  pub payload : Bytes

unfoldable pub is_bad_metadata : Bytes → Bool
unfolding word_32
is_bad_metadata fields =
    not (word_32 fields == 2)
    || word_32 (drop 4 fields) == 0
    || word_32 (drop 8 fields) == 0
    || not (word_32 (drop 12 fields) == word_32 (drop 4 fields))
    || not (word_32 (drop 16 fields) == word_32 (drop 4 fields))

unfoldable pub is_bad_size : ℕ → Bool
is_bad_size frame_size = ltb frame_size 4 || ltb max_frame_bytes frame_size

abbrev pub unless {ℓ} : {Found : Type ℓ} → Bool → Option Found → Option Found
unless true next = none
unless false next = next

-- One more than `chunk n` bytes come from a `read` when `n` bytes are left, or as many as are asked for
-- or are left; calls that are interrupted change nothing.
module _ (chunk : ℕ → ℕ) where
  -- `ReadExact`: the bytes, and the rest of the connection; on fuel, the bytes that are asked for.
  unfoldable pub read_from : ℕ → ℕ → Bytes → Option (Bytes × Bytes)
  read_from fuel zero stream = some ([], stream)
  read_from zero (suc size) stream = none
  read_from (suc fuel) (suc size) stream =
      let count = min (min (chunk (length stream) + 1) (suc size)) (length stream) in
      unless (count == 0) (
        read_from fuel (suc size - count) (drop count stream) >>= λ got.
        some (take count stream ++ got.0, got.1))

  unfoldable pub read_exact : ℕ → Bytes → Option (Bytes × Bytes)
  unfolding read_from
  read_exact size stream = read_from size size stream

  -- One round of the loop for typed frames, up to the call of the engine; `none`: the handler returns.
  unfoldable pub read_typed : Bytes → Option (TypedFrame × Bytes)
  unfolding is_bad_metadata is_bad_size shift_in
  read_typed stream = read_exact 24 stream >>= λ fields. read_exact 8 fields.1 >>= λ timestamp.
      unless (is_bad_metadata fields.0) (
        unless (is_bad_size (word_32 (drop 20 fields.0))) (
          read_exact (word_32 (drop 20 fields.0)) timestamp.1 >>= λ frame. some (
            record {
              width = word_32 (drop 4 fields.0);
              height = word_32 (drop 8 fields.0);
              timestamp = shift_in 0 timestamp.0;
              payload = frame.0;
            },
            frame.1,
          )))

  unfoldable pub read_legacy : Bytes → Option (Bytes × Bytes)
  unfolding is_bad_size
  read_legacy stream = read_exact 4 stream >>= λ network_size.
      unless (is_bad_size (word_32 network_size.0))
        (read_exact (word_32 network_size.0) network_size.1)

  -- The loop, on fuel; `clock` tells the time of each frame by its number.
  module _ (clock : ℕ → ℤ) where
    unfoldable pub typed_loop : ℕ → ℕ → Bytes → Engine → Engine
    unfolding read_typed
    typed_loop zero number stream engine = engine
    typed_loop (suc fuel) number stream engine = elim (read_typed stream) [
      | none ↦ engine
      | some (frame, rest) ↦
          let pushed =
            push_nv21_frame (clock number) frame.payload (to_int frame.width) (to_int frame.height)
              (to_int_64 frame.timestamp) engine in
          elim pushed.error [
            | some why ↦ pushed.engine
            | none ↦ typed_loop fuel (number + 1) rest pushed.engine
          ]
    ]

    unfoldable pub legacy_loop : ℕ → ℕ → Bytes → Engine → Engine
    unfolding read_legacy
    legacy_loop zero number stream engine = engine
    legacy_loop (suc fuel) number stream engine = elim (read_legacy stream) [
      | none ↦ engine
      | some (payload, rest) ↦
          let pushed = push_frame (clock number) payload engine in
          elim pushed.error [
            | some why ↦ pushed.engine
            | none ↦ legacy_loop fuel (number + 1) rest pushed.engine
          ]
    ]

    unfoldable pub handle_magic : Bytes → Bytes → Engine → Engine
    unfolding typed_loop legacy_loop
    handle_magic magic stream engine =
        if equal magic (bytes "VCF1")
        then legacy_loop (length stream) 0 stream engine
        else if equal magic (bytes "VCF2")
        then typed_loop (length stream) 0 stream engine
        else engine

    -- `HandleFrameClient`, while the daemon is not stopped; each round takes at least eight bytes.
    unfoldable pub handle_frame_client : Bool → Bytes → Engine → Engine
    unfolding handle_magic
    handle_frame_client allowed stream engine =
        if not allowed then engine else elim (read_exact 4 stream) [
          | none ↦ engine
          | some (magic, rest) ↦ handle_magic magic rest engine
        ]
