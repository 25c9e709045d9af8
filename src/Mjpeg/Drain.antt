-- ===== src/Mjpeg/Drain.antt =====
-- The loop of `MjpegParser::Append` and the reference machine.
use vcames.Common.{
  ℕ, zero, suc, ◌+◌, ◌≤◌, ◌<◌, ◌≡◌, refl, ap, inl, inr, Bool, false, Option, some, [], ◌∷◌, arith,
  ltb, if◌then◌else◌, Option-cases, length, drop, length-drop, Bytes, starts_with-drop,
  find-starts_with, find,
}
use vcames.Mjpeg.{Drained, soi_marker, eoi_marker, emit, drain_frame, drain}
use vcames.Mjpeg.Scan.{
  State, outside, inside, Scanned, frame_of, scan, scan-outside_none, scan-outside_some,
  Apart-false, scan-inside_none, scan-inside_some, last_is_ff-ends_with_ff,
}

-- The bytes that the parser keeps for a state.
abbrev pub kept : State → Bytes
kept (outside ff) = if ff then 0xff ∷ [] else []
kept (inside body ff) = frame_of body

-- A frame that has begun and is longer than the limit.
abbrev pub is_too_large : ℕ → State → Bool
is_too_large max (outside ff) = false
is_too_large max (inside body ff) = ltb max (length (frame_of body))

-- What the loop leaves, by the reference machine.
abbrev pub expected : ℕ → Scanned → Drained
expected max s = record {
  frames = s.frames;
  buffer = if is_too_large max s.state then [] else kept s.state;
  failed = is_too_large max s.state;
}

find_soi :
    (s : Bytes) (i : ℕ) → find soi_marker s ≡ some i → drop i s ≡ frame_of (drop 2 (drop i s))
unfolding soi_marker
find_soi s i h = starts_with-drop soi_marker (drop i s) (find-starts_with soi_marker s i h)

drain_frame-scan :
    (rest : Bytes → Option Drained) (max : ℕ) (body : Bytes)
    → ((s : Bytes) → length s ≤ length body → rest s ≡ some (expected max (scan (outside false) s)))
    → drain_frame rest max (frame_of body) ≡ some (expected max (scan (inside [] false) body))
unfolding drain_frame
drain_frame-scan rest max body loop = elim (Option-cases (find eoi_marker body)) [
  | inl e ↦
      rw (e, drain_frame)
        (rw (scan-inside_none body [] false (Apart-false 0xd9 body) e) (ground arith))
  | inr (j, e) ↦
      rw (e, drain_frame)
        (rw (scan-inside_some body [] false j (Apart-false 0xd9 body) e) (
          let four : j + 2 + 2 ≡ suc (suc (j + 2)) = omega arith in
          rw four (
            rw (loop (drop (j + 2) body) (omega (arith, length-drop (j + 2) body)))
              (unfold emit in refl))))
]

-- With fuel for every byte the loop ends, and leaves what the reference machine does.
pub drain-scan :
    (fuel max : ℕ) (s : Bytes)
    → length s < fuel
    → drain fuel max s ≡ some (expected max (scan (outside false) s))
unfolding drain
drain-scan zero max s h = elim h [ ]
drain-scan (suc fuel) max s h = elim (Option-cases (find soi_marker s)) [
  | inl e ↦
      rw (e, drain)
        (rw (scan-outside_none s false (Apart-false 0xd8 s) e)
          (rw (last_is_ff-ends_with_ff s) refl))
  | inr (i, e) ↦
      rw (e, drain)
        (rw (scan-outside_some s false i (Apart-false 0xd8 s) e) (
          rw (find_soi s i e) (
            drain_frame-scan (drain fuel max) max (drop 2 (drop i s)) (λ t short.
              drain-scan fuel max t (omega (arith, length-drop i s, ap length (find_soi s i e)))))))
]
