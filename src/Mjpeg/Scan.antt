-- ===== src/Mjpeg/Scan.antt =====
-- The reference for the parser: a machine over single bytes, and what a search for a marker means
-- for it.
use vcames.Common.{
  ℕ, zero, suc, ◌+◌, ◌≡◌, refl, ap, ◌∙◌, inl, inr, Bool, true, false, ◌&&◌, none, some, List, [],
  ◌∷◌, ◌++◌, append-nil, append_assoc, arith, ◌==◌, if◌then◌else◌, Bool-cases, Option-cases, take,
  drop, Bytes, starts_with, find,
}
use vcames.Mjpeg.{soi_marker, eoi_marker, ends_with_ff}

-- Between frames, or inside one with the bytes behind its start marker; the flag says that the byte
-- before was 0xff.
pub data State : Type 0 where
  outside : Bool → State
  inside : Bytes → Bool → State

pub record Scanned : Type 0 where
  pub frames : List Bytes
  pub state : State

abbrev pub with_frame : Bytes → Scanned → Scanned
with_frame f s = record s { frames = f ∷ s.frames }

abbrev pub frame_of : Bytes → Bytes
frame_of body = 0xff ∷ 0xd8 ∷ body

-- The frames that a stream of bytes holds, from a state on, and the state behind it.
unfoldable pub scan : State → Bytes → Scanned
scan σ [] = record { frames = []; state = σ }
scan (outside ff) (b ∷ s) =
    scan (if ff && b == 0xd8 then inside [] false else outside (b == 0xff)) s
scan (inside body ff) (b ∷ s) = elim (ff && b == 0xd9) [
  | true ↦ with_frame (frame_of (body ++ b ∷ [])) (scan (outside false) s)
  | false ↦ scan (inside (body ++ b ∷ []) (b == 0xff)) s
]

-- The byte before, behind `s`.
abbrev pub last_is_ff : Bool → Bytes → Bool
last_is_ff ff [] = ff
last_is_ff ff (b ∷ s) = last_is_ff (b == 0xff) s

pub last_is_ff-ends_with_ff : (s : Bytes) → last_is_ff false s ≡ ends_with_ff s
unfolding ends_with_ff
last_is_ff-ends_with_ff [] = refl
last_is_ff-ends_with_ff (c ∷ s) = from c s
  where
    from : (c : ℕ) (s : Bytes) → last_is_ff (c == 0xff) s ≡ ends_with_ff (c ∷ s)
    from c [] = refl
    from c (d ∷ s) = from d s

-- The text does not complete a marker that the byte before has begun.
abbrev pub Apart : ℕ → Bool → Bytes → Type 0
Apart second ff [] = Unit {0}
Apart second ff (b ∷ s) = (ff && b == second) ≡ false

pub Apart-false : (second : ℕ) (s : Bytes) → Apart second false s
Apart-false second [] = tt
Apart-false second (b ∷ s) = refl

abbrev marker : ℕ → Bytes
marker second = 0xff ∷ second ∷ []

find-cons_none :
    (second b : ℕ) (s : Bytes)
    → find (marker second) (b ∷ s) ≡ none
    → (find (marker second) s ≡ none) × Apart second (b == 0xff) s
unfolding find starts_with
find-cons_none second b [] h = (refl, tt)
find-cons_none second b (c ∷ s) h = ground (arith, Option-cases (find (marker second) (c ∷ s)))

find-cons_suc :
    (second b : ℕ) (s : Bytes) (i : ℕ)
    → find (marker second) (b ∷ s) ≡ some (suc i)
    → (find (marker second) s ≡ some i) × Apart second (b == 0xff) s
unfolding find starts_with
find-cons_suc second b [] i h = ground arith
find-cons_suc second b (c ∷ s) i h = ground (arith, Option-cases (find (marker second) (c ∷ s)))

find-cons_zero :
    (second b : ℕ) (s : Bytes)
    → find (marker second) (b ∷ s) ≡ some 0
    → (b ≡ 0xff) × ((r : Bytes) × (s ≡ second ∷ r))
unfolding find starts_with
find-cons_zero second b [] h = ground arith
find-cons_zero second b (c ∷ s) h = (
  ground (arith, Option-cases (find (marker second) (c ∷ s))),
  (s, ground (arith, Option-cases (find (marker second) (c ∷ s)))),
)

-- With no start marker ahead, all is skipped.
pub scan-outside_none :
    (s : Bytes) (ff : Bool)
    → Apart 0xd8 ff s
    → find soi_marker s ≡ none
    → scan (outside ff) s ≡ record { frames = []; state = outside (last_is_ff ff s) }
unfolding scan soi_marker
scan-outside_none [] ff a h = refl
scan-outside_none (b ∷ s) ff a h =
    let (h', a') = find-cons_none 0xd8 b s h in rw a (scan-outside_none s (b == 0xff) a' h')

-- Up to and with the first start marker all is skipped.
pub scan-outside_some :
    (s : Bytes) (ff : Bool) (i : ℕ)
    → Apart 0xd8 ff s
    → find soi_marker s ≡ some i
    → scan (outside ff) s ≡ scan (inside [] false) (drop 2 (drop i s))
unfolding scan soi_marker
scan-outside_some [] ff i a h = unfold find in cc
scan-outside_some (b ∷ s) ff zero a h =
    let (here, next) = find-cons_zero 0xd8 b s h in rw a (rw (here, next.1) refl)
scan-outside_some (b ∷ s) ff (suc i) a h =
    let (h', a') = find-cons_suc 0xd8 b s i h in rw a (scan-outside_some s (b == 0xff) i a' h')

pub scan-inside_none :
    (s body : Bytes) (ff : Bool)
    → Apart 0xd9 ff s
    → find eoi_marker s ≡ none
    → scan (inside body ff) s ≡ record { frames = []; state = inside (body ++ s) (last_is_ff ff s) }
unfolding scan eoi_marker
scan-inside_none [] body ff a h = rw (append-nil body)
scan-inside_none (b ∷ s) body ff a h =
    let (h', a') = find-cons_none 0xd9 b s h in
    rw (a, scan)
      (scan-inside_none s (body ++ b ∷ []) (b == 0xff) a' h'
        ∙ ap (λ t. record { frames = []; state = inside t (last_is_ff (b == 0xff) s) })
            (append_assoc body (b ∷ []) s))

-- Up to and with the first end marker the bytes are those of the frame.
pub scan-inside_some :
    (s body : Bytes) (ff : Bool) (i : ℕ)
    → Apart 0xd9 ff s
    → find eoi_marker s ≡ some i
    → scan (inside body ff) s
      ≡ with_frame (frame_of (body ++ take (i + 2) s)) (scan (outside false) (drop (i + 2) s))
unfolding scan eoi_marker
scan-inside_some [] body ff i a h = unfold find in cc
scan-inside_some (b ∷ s) body ff zero a h =
    let (here, next) = find-cons_zero 0xd9 b s h in
    rw (a, scan) (rw (here, next.1, append_assoc) refl)
scan-inside_some (b ∷ s) body ff (suc i) a h =
    let (h', a') = find-cons_suc 0xd9 b s i h in
    let e : suc i + 2 ≡ suc (i + 2) = omega arith in
    rw (a, scan)
      (rw e (
        scan-inside_some s (body ++ b ∷ []) (b == 0xff) i a' h'
        ∙ ap (λ t. with_frame (frame_of t) (scan (outside false) (drop (i + 2) s)))
            (append_assoc body (b ∷ []) (take (i + 2) s))))

-- Reading in two parts is reading in one.
pub scan-append :
    (s t : Bytes) (σ : State)
    → scan σ (s ++ t) ≡ (
        let first = scan σ s in
        let second = scan first.state t in
        record { frames = first.frames ++ second.frames; state = second.state })
unfolding scan
scan-append [] t σ = refl
scan-append (b ∷ s) t (outside ff) = scan-append s t _
scan-append (b ∷ s) t (inside body ff) = elim (Bool-cases (ff && b == 0xd9)) [
  | inl e ↦
      rw (e, scan) (ap (with_frame (frame_of (body ++ b ∷ []))) (scan-append s t (outside false)))
  | inr e ↦ rw (e, scan) (scan-append s t _)
]
