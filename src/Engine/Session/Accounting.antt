-- ===== src/Engine/Session/Accounting.antt =====
-- Frame accounting over the sessions of daemon/src/engine.cpp.
use vcames.Common.{
  ℕ, suc, ◌+◌, ◌^◌, ◌≤◌, ◌<◌, ◌≡◌, ap, ◌∙◌, inr, some, List, [], ◌∷◌, arith, length,
}
use vcames.Engine.{SourceFrame}
use vcames.Engine.Writer.{ImageTransform, taking, System}
use vcames.Engine.Session.{Event, step, run}
use vcames.Engine.Session.Books.{claimed_in, claimed, History, noted, history, nothing_yet, Sound}
use vcames.Engine.Session.Steps.{step-Noted}

run-Sound :
    (images : ImageTransform) (events : List Event) (k : ℕ) (h : History) (s : System)
    → k + length events + 2 < 2 ^ 64
    → Sound k h s
    → Sound (k + length events) (history images events s h) (run images events s)
unfolding run history
run-Sound images [] k h s small sound = let e : k + 0 ≡ k = omega arith in rw e sound
run-Sound images (event ∷ events) k h s small sound =
    let e : k + suc (length events) ≡ k + 1 + length events = omega arith in
    rw e (
      run-Sound images events (k + 1) (noted images event s h) (step images event s)
        (omega (arith, small)) (step-Noted images k h s (omega (arith, small)) sound event))

-- The state in which `Start` leaves the engine and the writer begins.
pub record IsFresh (s : System) : Type 0 where
  pub none_received : s.engine.status.frames_received ≡ 0
  pub none_dropped : s.engine.status.frames_dropped ≡ 0
  pub first_generation : s.engine.latest_generation ≡ 1
  pub first_frame : (frame : SourceFrame) × (s.engine.latest_frame ≡ some frame)
  pub at_start : s.writer.phase ≡ taking
  pub none_consumed : s.writer.consumed_generation ≡ 0

-- In every session of fewer than 2^63 steps, however the threads take turns: the generation is one more
-- than the frames received, the writer is never ahead of it, and every generation up to the one that
-- the writer last took up was either taken up or counted as dropped, as was each frame that was
-- refused for its size or could not be transformed; nothing else counts as dropped.
pub run-accounted :
    (images : ImageTransform) (events : List Event) (s : System)
    → IsFresh s
    → length events < 2 ^ 63
    → let s' = run images events s in
      let h = history images events s nothing_yet in
      (s'.engine.status.frames_received + 1 ≡ s'.engine.latest_generation)
      × (claimed s'.writer ≤ s'.engine.latest_generation)
      × (s'.engine.status.frames_dropped + h.taken ≡ claimed s'.writer + h.refused + h.broken)
run-accounted images events s f small =
    let none_claimed : claimed s.writer ≡ 0 =
      ap (λ p. claimed_in p s.writer.consumed_generation) f.at_start ∙ f.none_consumed in
    let start : Sound 0 nothing_yet s = record {
      books = record {
        received_is = omega (arith, f);
        bounded = omega (arith, f);
        claimed_le = omega (arith, none_claimed);
        dropped_is = omega (arith, f, none_claimed);
      };
      frame_there = inr f.first_frame;
    } in
    let end = run-Sound images events 0 nothing_yet s (omega (arith, small)) start in
    (end.books.received_is, end.books.claimed_le, end.books.dropped_is)
