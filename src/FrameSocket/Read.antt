-- ===== src/FrameSocket/Read.antt =====
-- ReadExact of daemon/src/main.cpp, for any cut of a connection into reads.
use vcames.Common.{
  ℕ, zero, suc, ◌+◌, ◌-◌, ◌≤◌, ◌<◌, min, ◌≡◌, refl, ap, ◌∙◌, inl, inr, false, Option, none, some,
  [], ◌∷◌, ◌++◌, arith, leb, ◌==◌, if◌then◌else◌, leb→le, le→leb, Bool-cases, length, take, drop,
  length-append, length-drop, take-append, drop-append, drop-drop, Bytes,
}
use vcames.Common.Partial.{◌>>=◌}
use vcames.FrameSocket.{read_from, read_exact, unless}

take-nil : (n : ℕ) → take {A = ℕ} n [] ≡ []
take-nil zero = refl
take-nil (suc n) = refl

take-take-drop : (n m : ℕ) (s : Bytes) → n ≤ m → take n s ++ take (m - n) (drop n s) ≡ take m s
take-take-drop zero m s l = ap (λ k. take k s) (omega arith)
take-take-drop (suc n) (suc m) [] l = take-nil (suc m - suc n)
take-take-drop (suc n) (suc m) (c ∷ s) l =
    let e : suc m - suc n ≡ m - n = omega arith in
    rw e (ap (◌∷◌ c) (take-take-drop n m s (omega arith)))
take-take-drop (suc n) zero s l = absurd (omega arith)

module _ (chunk : ℕ → ℕ) where
  -- One read of `count` bytes, and what the others give.
  turn :
      (fuel size count : ℕ) (stream : Bytes) (o : Option (Bytes × Bytes))
      → 0 < count
      → read_from chunk fuel (size - count) (drop count stream) ≡ o
      → unless {Found = Bytes × Bytes} (count == 0) (
          read_from chunk fuel (size - count) (drop count stream) >>= λ got.
          some (take count stream ++ got.0, got.1))
        ≡ (◌>>=◌ {Next = Bytes × Bytes} o (λ got. some (take count stream ++ got.0, got.1)))
  turn fuel size count stream o p e =
      let some_count : (count == 0) ≡ false = ground arith in rw e (rw some_count refl)

  joined :
      (size count : ℕ) (stream : Bytes)
      → count ≤ size
      → (take count stream ++ take (size - count) (drop count stream) ≡ take size stream)
        × (drop (size - count) (drop count stream) ≡ drop size stream)
  joined size count stream l =
      let e : count + (size - count) ≡ size = omega arith in
      (
        take-take-drop count size stream l,
        drop-drop (size - count) count stream ∙ ap (λ n. drop n stream) e,
      )

  abbrev count_of : ℕ → Bytes → ℕ
  count_of size stream = min (min (chunk (length stream) + 1) size) (length stream)

  read_from-enough :
      (fuel size : ℕ) (stream : Bytes)
      → size ≤ fuel
      → size ≤ length stream
      → read_from chunk fuel size stream ≡ some (take size stream, drop size stream)
  unfolding read_from
  read_from-enough fuel zero stream f l = refl
  read_from-enough zero (suc size) stream f l = absurd (omega arith)
  read_from-enough (suc fuel) (suc size) stream f l =
      let count = count_of (suc size) stream in
      let some_bytes : 0 < count = omega arith in
      let few : count ≤ suc size = omega arith in
      let (taken, left) = joined (suc size) count stream few in
      turn fuel (suc size) count stream _ some_bytes (
        read_from-enough fuel (suc size - count) (drop count stream) (omega arith)
          (omega (arith, length-drop count stream)))
      ∙ rw (taken, left) refl

  read_from-short :
      (fuel size : ℕ) (stream : Bytes)
      → length stream < size
      → read_from chunk fuel size stream ≡ none
  unfolding read_from
  read_from-short fuel zero stream l = absurd (omega arith)
  read_from-short zero (suc size) stream l = refl
  read_from-short (suc fuel) (suc size) stream l =
      elim (Bool-cases (count_of (suc size) stream == 0)) [
        | inl none_left ↦ rw none_left refl
        | inr some_left ↦
            let count = count_of (suc size) stream in
            turn fuel (suc size) count stream none (ground arith) (
              read_from-short fuel (suc size - count) (drop count stream)
                (omega (arith, length-drop count stream)))
      ]

  -- However a connection is cut into reads, `ReadExact` gives the bytes that it is asked for if they
  -- come, and fails if the connection ends before them.
  pub read_exact_lem :
      (size : ℕ) (stream : Bytes)
      → read_exact chunk size stream
        ≡ (if leb size (length stream) then some (take size stream, drop size stream) else none)
  unfolding read_exact
  read_exact_lem size stream = elim (Bool-cases (leb size (length stream))) [
    | inl e ↦ rw e (read_from-enough size size stream (omega arith) (leb→le size (length stream) e))
    | inr e ↦ rw e (read_from-short size size stream (ground arith))
  ]

  -- Bytes that come first are read first.
  pub read_exact-append :
      (s rest : Bytes) → read_exact chunk (length s) (s ++ rest) ≡ some (s, rest)
  read_exact-append s rest =
      let fits : length s ≤ length (s ++ rest) = omega (arith, length-append s rest) in
      read_exact_lem (length s) (s ++ rest)
      ∙ rw (le→leb (length s) (length (s ++ rest)) fits, take-append s rest, drop-append s rest)
          refl
