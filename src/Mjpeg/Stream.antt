-- ===== src/Mjpeg/Stream.antt =====
-- The read loop of FfmpegSource::Stream in daemon/src/ffmpeg_source.cpp over a stream in chunks.
use vcames.Common.{
  ℕ, ◌+◌, ◌≤◌, ◌≡◌, refl, sym, ap, subst, ◌∙◌, inl, inr, true, false, Option, some, List, [], ◌∷◌,
  ◌++◌, arith, ◌==◌, Bool-cases, length, length-append, Bytes,
}
use vcames.Mjpeg.{
  MjpegParser, Appended, store, append, appended, too_large, with_frames, after_chunk, feed,
  new_parser,
}
use vcames.Mjpeg.Scan.{State, outside, inside, scan, scan-append}
use vcames.Mjpeg.Drain.{kept, is_too_large, expected}
use vcames.Mjpeg.Chunks.{start, Represents, append-scan, store-Represents}

unfoldable pub concat : List Bytes → Bytes
concat [] = []
concat (c ∷ cs) = c ++ concat cs

-- A result in which no chunk has failed: its frames and its state are those of the reference machine.
pub record Follows (p : MjpegParser) (σ : State) (s : Bytes) (a : Appended) : Type 0 where
  pub frames_are : a.frames ≡ (scan σ s).frames
  pub limit_is : a.parser.max_frame_bytes ≡ p.max_frame_bytes
  pub state_is : Represents a.parser (scan σ s).state

module _ (p : MjpegParser) (σ : State) (c : Bytes) (r : Represents p σ) where
  abbrev next : Appended
  next = store p (expected p.max_frame_bytes (scan σ c))

  stops :
      (rest : MjpegParser → Option Appended)
      → is_too_large p.max_frame_bytes (scan σ c).state ≡ true
      → (after_chunk rest (append p true c) ≡ some next) × (next.outcome ≡ too_large)
  unfolding after_chunk store
  stops rest over = rw (append-scan p σ c r, over) (refl, refl)

  goes_on :
      (rest : MjpegParser → Option Appended)
      → is_too_large p.max_frame_bytes (scan σ c).state ≡ false
      → after_chunk rest (append p true c) ≡ with_frames (scan σ c).frames (rest next.parser)
  unfolding after_chunk store
  goes_on rest fits = rw (append-scan p σ c r, fits) refl

  Follows-cons :
      (s : Bytes) (a : Appended)
      → Follows next.parser (scan σ c).state s a
      → Follows p σ (c ++ s) (record a { frames = (scan σ c).frames ++ a.frames })
  unfolding store
  Follows-cons s a f = record {
    frames_are = rw (scan-append c s σ, f.frames_are) refl;
    limit_is = f.limit_is;
    state_is = rw (scan-append c s σ) f.state_is;
  }

-- The loop ends; each chunk is read by the reference machine, up to a failure.
feed-Follows :
    (cs : List Bytes) (p : MjpegParser) (σ : State)
    → Represents p σ
    → (a : Appended) × (feed p cs ≡ some a) × (a.outcome ≡ appended → Follows p σ (concat cs) a)
unfolding feed concat
feed-Follows [] p σ r = (
  record { frames = []; parser = p; outcome = appended },
  refl,
  λ _. record { frames_are = unfold scan in refl; limit_is = refl; state_is = unfold scan in r },
)
feed-Follows (c ∷ cs) p σ r = elim (Bool-cases (is_too_large p.max_frame_bytes (scan σ c).state)) [
  | inl over ↦
      let (result, failed) = stops p σ c r (λ q. feed q cs) over in
      (next p σ c r, result, λ done. cc (failed, done))
  | inr fits ↦
      let (a, fed, follows) =
        feed-Follows cs (next p σ c r).parser (scan σ c).state (store-Represents p σ c r fits) in
      (
        record a { frames = (scan σ c).frames ++ a.frames },
        goes_on p σ c r (λ q. feed q cs) fits
            ∙ ap (with_frames (scan σ c).frames) fed
            ∙ unfold with_frames in refl,
        λ done. Follows-cons p σ c r (concat cs) a (follows done),
      )
]

new_parser-Represents : (max : ℕ) → Represents (new_parser max) start
unfolding new_parser scan
new_parser-Represents max = record { buffered = refl; recovered = refl; fits = refl }

feed-appended :
    (cs : List Bytes) (p : MjpegParser) (σ : State) (a : Appended)
    → Represents p σ
    → feed p cs ≡ some a
    → a.outcome ≡ appended
    → Follows p σ (concat cs) a
feed-appended cs p σ a r fed done =
    let (b, e, follows) = feed-Follows cs p σ r in
    let same : b ≡ a = cc (fed, e) in
    subst (λ t. t.outcome ≡ appended → Follows p σ (concat cs) t) same follows done

Follows-parser :
    (p : MjpegParser) (σ : State) (s : Bytes) (a : Appended)
    → Follows p σ s a
    → a.parser ≡ record p { buffer = kept (scan σ s).state }
Follows-parser p σ s a f = cc (f.limit_is, f.state_is.buffered)

-- However a stream is cut into chunks, a parser that takes them all gives the same frames and is left
-- in the same state: those of the reference machine on the whole stream.
pub feed_chunking :
    (max : ℕ) (cs ds : List Bytes) (a b : Appended)
    → concat cs ≡ concat ds
    → feed (new_parser max) cs ≡ some a
    → feed (new_parser max) ds ≡ some b
    → a.outcome ≡ appended
    → b.outcome ≡ appended
    → (a.frames ≡ b.frames) × (a.parser ≡ b.parser) × (a.frames ≡ (scan start (concat cs)).frames)
feed_chunking max cs ds a b same fa fb oa ob =
    let f = feed-appended cs (new_parser max) start a (new_parser-Represents max) fa oa in
    let g = feed-appended ds (new_parser max) start b (new_parser-Represents max) fb ob in
    (
      f.frames_are ∙ ap (λ s. (scan start s).frames) same ∙ sym g.frames_are,
      Follows-parser (new_parser max) start (concat cs) a f
          ∙ ap (λ s. record (new_parser max) { buffer = kept (scan start s).state }) same
          ∙ sym (Follows-parser (new_parser max) start (concat ds) b g),
      f.frames_are,
    )

-- The parser keeps no byte that it was not given.
length-kept-scan :
    (s : Bytes) (σ : State) → length (kept (scan σ s).state) ≤ length (kept σ) + length s
unfolding scan
length-kept-scan [] σ = omega arith
length-kept-scan (b ∷ s) (outside ff) = ground (
  arith,
  length-kept-scan s (inside [] false),
  length-kept-scan s (outside true),
  length-kept-scan s (outside false),
)
length-kept-scan (b ∷ s) (inside body ff) = ground (
  arith,
  length-kept-scan s (outside false),
  length-kept-scan s (inside (body ++ b ∷ []) (b == 0xff)),
  length-append body (b ∷ []),
)

small : (max : ℕ) (σ : State) → length (kept σ) ≤ max → is_too_large max σ ≡ false
small max (outside ff) h = refl
small max (inside body ff) h = ground arith

feed_within :
    (cs : List Bytes) (p : MjpegParser) (σ : State)
    → Represents p σ
    → length (kept σ) + length (concat cs) ≤ p.max_frame_bytes
    → (a : Appended) × (feed p cs ≡ some a) × (a.outcome ≡ appended)
unfolding feed concat
feed_within [] p σ r h = (record { frames = []; parser = p; outcome = appended }, refl, refl)
feed_within (c ∷ cs) p σ r h =
    let room : length (kept (scan σ c).state) + length (concat cs) ≤ p.max_frame_bytes =
      omega (arith, length-kept-scan c σ, length-append c (concat cs)) in
    let fits = small p.max_frame_bytes (scan σ c).state (omega arith) in
    let (a, fed, done) =
      feed_within cs (next p σ c r).parser (scan σ c).state (store-Represents p σ c r fits)
        (unfold store in room) in
    (
      record a { frames = (scan σ c).frames ++ a.frames },
      goes_on p σ c r (λ q. feed q cs) fits
          ∙ ap (with_frames (scan σ c).frames) fed
          ∙ unfold with_frames in refl,
      done,
    )

-- A stream that is no longer than the limit is always taken whole, with the frames that the reference
-- machine finds in it.
pub feed_succeeds :
    (max : ℕ) (cs : List Bytes)
    → length (concat cs) ≤ max
    → (a : Appended) × (feed (new_parser max) cs ≡ some a)
      × (a.outcome ≡ appended)
      × (a.frames ≡ (scan start (concat cs)).frames)
feed_succeeds max cs h =
    let r = new_parser-Represents max in
    let (a, fed, done) =
      feed_within cs (new_parser max) start r (unfold new_parser in omega arith) in
    (a, fed, done, (feed-appended cs (new_parser max) start a r fed done).frames_are)
