-- ===== src/Engine/Backoff.antt =====
-- The waits of `Engine::SourceLoop` between two runs of FFmpeg.
use vcames.Common.{
  ℕ, zero, suc, ◌+◌, ◌*◌, ◌^◌, ◌≤◌, ◌<◌, min, ◌≡◌, refl, Bool, true, false, some, List, [], ◌∷◌,
  arith, if◌then◌else◌, get_elem?, replicate,
}
use native.Mathlib.Nat.{pow-suc}

-- Whether each run connected, and the seconds that the loop then waits, from `backoff_seconds` on.
unfoldable pub source_waits : ℕ → List Bool → List ℕ
source_waits backoff_seconds [] = []
source_waits backoff_seconds (connected_once ∷ runs) =
    let seconds = if connected_once then 1 else backoff_seconds in
    seconds ∷ source_waits (min (seconds * 2) 30) runs

doubles : (p : ℕ) → min (min p 30 * 2) 30 ≡ min (p * 2) 30
doubles p = omega arith

pub waits_double :
    (n j k : ℕ)
    → k < n
    → get_elem? (source_waits (min (2 ^ j) 30) (replicate n false)) k ≡ some (min (2 ^ (j + k)) 30)
unfolding source_waits
waits_double (suc n) j zero l = let e : j + 0 ≡ j = omega arith in rw e refl
waits_double (suc n) j (suc k) l =
    let e : j + suc k ≡ j + 1 + k = omega arith in
    let next : j + 1 ≡ suc j = omega arith in
    let power : 2 ^ (j + 1) ≡ 2 ^ j * 2 = rw next (pow-suc 2 j) in
    rw (doubles (2 ^ j), ← power, e) (waits_double n (j + 1) k (omega arith))
waits_double zero j k l = absurd (omega arith)

-- Behind a run that connected, the waits are 1, 2, 4, 8 and 16 seconds and then always 30, until a run
-- connects again; this holds from every state of the loop.
pub source_waits-get_elem? :
    (backoff_seconds n k : ℕ)
    → k ≤ n
    → get_elem? (source_waits backoff_seconds (true ∷ replicate n false)) k ≡ some (min (2 ^ k) 30)
unfolding source_waits
source_waits-get_elem? b n zero l = refl
source_waits-get_elem? b n (suc k) l =
    let e : 1 + k ≡ suc k = omega arith in rw e at (waits_double n 1 k (omega arith))
