-- ===== src/V4l2Sink/Write.antt =====
-- `V4l2Sink::Write` of daemon/src/v4l2_sink.cpp: which answers of the driver make it succeed.
use vcames.Common.{
  ℕ, ◌≡◌, refl, sym, ◌∙◌, ◌↔◌, inl, inr, true, false, Option, none, some, List, [], ◌∷◌, arith,
  Option-cases, length, Bytes,
}
use vcames.V4l2Sink.{
  V4l2Sink, Final, Answer, Polled, Written, gives, fails_with, repeated, write_loop, write_frame,
  timed_out, ready, write_interrupted, took, write_failed, would_block,
}

-- After these answers the frame is offered again.
pub data IsRetry : Written → Type 0 where
  again : IsRetry write_interrupted
  writable :
      (polls : List (Answer Polled))
      → repeated polls ≡ some (gives (ready true))
      → IsRetry (would_block polls)

-- The driver takes `size` bytes at once, behind answers that lead to another try.
pub data Takes (size : ℕ) : List Written → Type 0 where
  whole : (count : ℕ) (later : List Written) → count ≡ size → Takes size (took count ∷ later)
  retry :
      (answer : Written) (later : List Written)
      → IsRetry answer
      → Takes size later
      → Takes size (answer ∷ later)

write_loop-retry :
    (answer : Written) (later : List Written) (jpeg : Bytes)
    → IsRetry answer
    → write_loop (answer ∷ later) jpeg ≡ write_loop later jpeg
unfolding write_loop
write_loop-retry _ later jpeg again = refl
write_loop-retry _ later jpeg (writable polls e) = rw (e, write_loop) refl

Takes-write_loop :
    (jpeg : Bytes) (answers : List Written)
    → Takes (length jpeg) answers
    → write_loop answers jpeg ≡ some none
unfolding write_loop
Takes-write_loop jpeg _ (whole count later e) = ground arith
Takes-write_loop jpeg _ (retry answer later r t) =
    write_loop-retry answer later jpeg r ∙ Takes-write_loop jpeg later t

-- The ways in which a `poll` ends.
poll_cases :
    (polls : List (Answer Polled)) (later : List Written) (jpeg : Bytes)
    → write_loop (would_block polls ∷ later) jpeg ≡ some none
    → (repeated polls ≡ some (gives (ready true))) × (write_loop later jpeg ≡ some none)
unfolding write_loop
poll_cases polls later jpeg h = go (repeated polls) refl
  where
    go :
        (o : Option (Final Polled))
        → repeated polls ≡ o
        → (repeated polls ≡ some (gives (ready true))) × (write_loop later jpeg ≡ some none)
    go none e = cc (rw (e, write_loop) at h)
    go (some (fails_with errno)) e = cc (rw (e, write_loop) at h)
    go (some (gives timed_out)) e = cc (rw (e, write_loop) at h)
    go (some (gives (ready true))) e = (e, rw (e, write_loop) at h)
    go (some (gives (ready false))) e = cc (rw (e, write_loop) at h)

write_loop-Takes :
    (jpeg : Bytes) (answers : List Written)
    → write_loop answers jpeg ≡ some none
    → Takes (length jpeg) answers
unfolding write_loop
write_loop-Takes jpeg [] h = cc
write_loop-Takes jpeg (write_interrupted ∷ later) h =
    retry _ later again (write_loop-Takes jpeg later h)
write_loop-Takes jpeg (took count ∷ later) h = whole count later (ground arith)
write_loop-Takes jpeg (write_failed errno ∷ later) h = cc
write_loop-Takes jpeg (would_block polls ∷ later) h =
    let (e, h') = poll_cases polls later jpeg h in
    retry _ later (writable polls e) (write_loop-Takes jpeg later h')

-- `Write` returns true exactly when the sink is open and the driver takes the whole frame in one call,
-- behind calls that were interrupted or that found the device busy until it could be written.
pub write_frame_iff :
    (answers : List Written) (jpeg : Bytes) (sink : V4l2Sink)
    → (write_frame answers jpeg sink ≡ some none)
      ↔ (((fd : ℕ) × (sink.fd ≡ some fd)) × Takes (length jpeg) answers)
unfolding write_frame
write_frame_iff answers jpeg sink = elim (Option-cases sink.fd) [
  | inl e ↦ (λ h. cc (rw e at h), λ t. cc (sym e ∙ t.0.1))
  | inr (fd, e) ↦ (
    λ h. ((fd, e), write_loop-Takes jpeg answers (rw e at h)),
    λ t. rw e (Takes-write_loop jpeg answers t.1),
  )
]
