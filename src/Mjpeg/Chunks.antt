-- ===== src/Mjpeg/Chunks.antt =====
-- `MjpegParser::Append`, one chunk after another, and the reference machine.
use vcames.Common.{
  ℕ, ◌+◌, ◌≡◌, refl, ◌∙◌, inl, inr, Bool, true, false, ◌&&◌, some, [], ◌∷◌, ◌++◌, arith, ◌==◌,
  if◌then◌else◌, Bool-cases, length, Bytes,
}
use vcames.Mjpeg.{MjpegParser, store, append}
use vcames.Mjpeg.Scan.{State, outside, inside, frame_of, scan, scan-append}
use vcames.Mjpeg.Drain.{kept, is_too_large, expected, drain-scan}

abbrev pub start : State
start = outside false

-- A state that reading the kept bytes anew leads back to.
abbrev pub IsKept : State → Type 0
IsKept σ = scan start (kept σ) ≡ record { frames = []; state = σ }

-- The parser's buffer stands for a state of the reference machine, within the limit.
pub record Represents (p : MjpegParser) (σ : State) : Type 0 where
  pub buffered : p.buffer ≡ kept σ
  pub recovered : IsKept σ
  pub fits : is_too_large p.max_frame_bytes σ ≡ false

outside-IsKept : (ff : Bool) → IsKept (outside ff)
unfolding scan
outside-IsKept true = refl
outside-IsKept false = refl

skip-IsKept : (t u : Bool) → IsKept (if t then inside [] false else outside u)
unfolding scan
skip-IsKept true u = refl
skip-IsKept false u = outside-IsKept u

inside-IsKept :
    (body : Bytes) (ff : Bool) (b : ℕ)
    → IsKept (inside body ff)
    → (ff && b == 0xd9) ≡ false
    → IsKept (inside (body ++ b ∷ []) (b == 0xff))
inside-IsKept body ff b h e =
    scan-append (frame_of body) (b ∷ []) start ∙ rw h (unfold scan in rw (e, scan) refl)

pub scan-IsKept : (s : Bytes) (σ : State) → IsKept σ → IsKept (scan σ s).state
unfolding scan
scan-IsKept [] σ h = h
scan-IsKept (b ∷ s) (outside ff) h = scan-IsKept s _ (skip-IsKept (ff && b == 0xd8) (b == 0xff))
scan-IsKept (b ∷ s) (inside body ff) h = elim (Bool-cases (ff && b == 0xd9)) [
  | inl e ↦ rw (e, scan) (scan-IsKept s start refl)
  | inr e ↦ rw (e, scan) (scan-IsKept s _ (inside-IsKept body ff b h e))
]

scan-kept : (σ : State) (s : Bytes) → IsKept σ → scan start (kept σ ++ s) ≡ scan σ s
scan-kept σ s h = scan-append (kept σ) s start ∙ rw h refl

-- `Append` on a parser in a known state: it ends, calls back with the frames that the reference
-- machine finds, and fails exactly when a frame that has begun is over the limit.
pub append-scan :
    (p : MjpegParser) (σ : State) (chunk : Bytes)
    → Represents p σ
    → append p true chunk ≡ some (store p (expected p.max_frame_bytes (scan σ chunk)))
unfolding append
append-scan p σ [] r = unfold store scan in ground arith
append-scan p σ (b ∷ s) r =
    rw
      (drain-scan (length (p.buffer ++ b ∷ s) + 1) p.max_frame_bytes (p.buffer ++ b ∷ s)
        (omega arith))
      (rw (r.buffered, scan-kept σ (b ∷ s) r.recovered) refl)

-- A failure leaves the parser between frames, and success leaves it in the machine's state.
pub store-Represents :
    (p : MjpegParser) (σ : State) (chunk : Bytes)
    → Represents p σ
    → is_too_large p.max_frame_bytes (scan σ chunk).state ≡ false
    → Represents (store p (expected p.max_frame_bytes (scan σ chunk))).parser (scan σ chunk).state
unfolding store
store-Represents p σ chunk r e = record {
  buffered = rw e refl;
  recovered = scan-IsKept chunk σ r.recovered;
  fits = e;
}
