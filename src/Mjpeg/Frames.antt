-- ===== src/Mjpeg/Frames.antt =====
-- What `MjpegParser::Append` gives to the callback, and what it keeps.
use vcames.Common.{
  ℕ, ◌+◌, ◌≤◌, ◌≡◌, refl, ap, ◌⊎◌, inl, inr, Bool, true, false, ◌&&◌, none, some, [], ◌∷◌, ◌++◌,
  append_assoc, arith, ◌==◌, if◌then◌else◌, ==_iff, Bool-cases, Option-cases, length, All, Bytes,
  starts_with, find,
}
use vcames.Mjpeg.{MjpegParser, Appended, store, append, eoi_marker, soi_marker}
use vcames.Mjpeg.Scan.{
  State, outside, inside, Scanned, frame_of, scan, Apart, Apart-false, last_is_ff,
}
use vcames.Mjpeg.Drain.{kept, is_too_large, expected, drain-scan}

-- A start marker, a body that no end marker stands in or runs out of, and an end marker.
pub record IsFrame (f : Bytes) : Type 0 where
  pub body : Bytes
  pub delimited : f ≡ soi_marker ++ (body ++ eoi_marker)
  pub first_end : find eoi_marker (body ++ 0xff ∷ []) ≡ none

-- Inside a frame no end marker has passed, and the flag tells the last byte.
abbrev Inside : State → Type 0
Inside (outside ff) = Unit {0}
Inside (inside body ff) = (find eoi_marker body ≡ none) × (last_is_ff false body ≡ ff)

find-snoc :
    (s : Bytes) (b : ℕ) (ff : Bool)
    → Apart 0xd9 ff (s ++ b ∷ [])
    → find eoi_marker s ≡ none
    → (last_is_ff ff s && b == 0xd9) ≡ false
    → find eoi_marker (s ++ b ∷ []) ≡ none
unfolding find starts_with eoi_marker
find-snoc [] b ff a h e = ground arith
find-snoc (c ∷ []) b ff a h e = ground arith
find-snoc (c ∷ d ∷ s) b ff a h e =
    ground (arith, Option-cases (find eoi_marker (d ∷ s)), find-snoc (d ∷ s) b (c == 0xff))

last_is_ff-snoc : (s : Bytes) (b : ℕ) (ff : Bool) → last_is_ff ff (s ++ b ∷ []) ≡ (b == 0xff)
last_is_ff-snoc [] b ff = refl
last_is_ff-snoc (c ∷ s) b ff = last_is_ff-snoc s b (c == 0xff)

-- A text that ends with 0xff, cut before it.
cut_last :
    (s : Bytes) (ff : Bool)
    → last_is_ff ff s ≡ true
    → (s ≡ []) ⊎ ((t : Bytes) × (s ≡ t ++ 0xff ∷ []))
cut_last [] ff h = inl refl
cut_last (c ∷ s) ff h = elim (cut_last s (c == 0xff) h) [
  | inl e ↦ inr ([], cc (e, (==_iff c 0xff).0 (rw e at h)))
  | inr (t, e) ↦ inr (c ∷ t, ap (◌∷◌ c) e)
]

IsFrame-concat :
    (body : Bytes) (b : ℕ)
    → find eoi_marker body ≡ none
    → last_is_ff false body ≡ true
    → b ≡ 0xd9
    → IsFrame (frame_of (body ++ b ∷ []))
unfolding soi_marker
IsFrame-concat body b h l e = elim (cut_last body false l) [
  | inl n ↦ cc (rw n at l)
  | inr (t, n) ↦ record {
    body = t;
    delimited = rw (n, e, append_assoc) (unfold eoi_marker in refl);
    first_end = rw (← n) h;
  }
]

skip-Inside : (t u : Bool) → Inside (if t then inside [] false else outside u)
unfolding find
skip-Inside true u = (refl, refl)
skip-Inside false u = tt

scan-IsFrame : (s : Bytes) (σ : State) → Inside σ → All IsFrame (scan σ s).frames
unfolding scan
scan-IsFrame [] σ i = tt
scan-IsFrame (b ∷ s) (outside ff) i = scan-IsFrame s _ (skip-Inside (ff && b == 0xd8) (b == 0xff))
scan-IsFrame (b ∷ s) (inside body ff) (none_yet, last) = elim (Bool-cases (ff && b == 0xd9)) [
  | inl e ↦
      rw (e, scan)
        (
          IsFrame-concat body b none_yet (ground arith) (ground arith),
          scan-IsFrame s (outside false) tt,
        )
  | inr e ↦
      rw (e, scan)
        (scan-IsFrame s (inside (body ++ b ∷ []) (b == 0xff)) (
          find-snoc body b false (Apart-false 0xd9 (body ++ b ∷ [])) none_yet (rw last e),
          last_is_ff-snoc body b false,
        ))
]

abbrev read : MjpegParser → Bytes → Scanned
read p chunk = scan (outside false) (p.buffer ++ chunk)

append_cases :
    (p : MjpegParser) (given : Bool) (chunk : Bytes) (a : Appended)
    → append p given chunk ≡ some a
    → ((a.frames ≡ []) × (a.parser ≡ p)) ⊎ (a ≡ store p (expected p.max_frame_bytes (read p chunk)))
unfolding append
append_cases p true [] a h = inl (ground arith, ground arith)
append_cases p false [] a h = inl (ground arith, ground arith)
append_cases p false (b ∷ s) a h = inl (ground arith, ground arith)
append_cases p true (b ∷ s) a h = inr (
    cc (
      drain-scan (length (p.buffer ++ b ∷ s) + 1) p.max_frame_bytes (p.buffer ++ b ∷ s)
        (omega arith)))

-- Every frame that the callback is given begins with a start marker and runs to the first end marker
-- behind it, and no further.
pub append-IsFrame :
    (p : MjpegParser) (given : Bool) (chunk : Bytes) (a : Appended)
    → append p given chunk ≡ some a
    → All IsFrame a.frames
append-IsFrame p given chunk a h = elim (append_cases p given chunk a h) [
  | inl e ↦ rw e.0 tt
  | inr e ↦ rw e (unfold store in scan-IsFrame (p.buffer ++ chunk) (outside false) tt)
]

-- The parser keeps a frame within its limit, or one byte that may begin a marker.
abbrev pub IsBounded : MjpegParser → Type 0
IsBounded p = (length p.buffer ≤ p.max_frame_bytes) ⊎ (length p.buffer ≤ 1)

kept-bounded :
    (max : ℕ) (σ : State)
    → let left = if is_too_large max σ then [] else kept σ in
      (length left ≤ max) ⊎ (length left ≤ 1)
kept-bounded max (outside true) = omega arith
kept-bounded max (outside false) = omega arith
kept-bounded max (inside body ff) = ground arith

-- Whatever chunk is appended, and whether this fails or not, what the parser keeps stays bounded.
pub append-IsBounded :
    (p : MjpegParser) (given : Bool) (chunk : Bytes) (a : Appended)
    → IsBounded p
    → append p given chunk ≡ some a
    → IsBounded a.parser
append-IsBounded p given chunk a i h = elim (append_cases p given chunk a h) [
  | inl e ↦ rw e.1 i
  | inr e ↦ rw e (unfold store in kept-bounded p.max_frame_bytes (read p chunk).state)
]
