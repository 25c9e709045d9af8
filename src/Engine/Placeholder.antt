-- ===== src/Engine/Placeholder.antt =====
-- The placeholder of `Engine::Start` in daemon/src/engine.cpp, pixel by pixel.
use vcames.Common.{
  ℕ, zero, suc, ◌+◌, ◌-◌, ◌*◌, ◌/◌, ◌≤◌, ◌<◌, ◌≡◌, refl, ap, ◌∙◌, some, ◌++◌, arith, length,
  get_elem?, replicate, length-append, length-replicate, get_elem?-append_front,
  get_elem?-append_behind, ℤ, pos, Bytes,
}
use vcames.Engine.{SourceFrame, nv21, placeholder}

-- An NV21 frame of a size, packed, of which every pixel is black in the range of video.
pub record IsBlack (width height : ℕ) (f : SourceFrame) : Type 0 where
  pub format_is : f.format ≡ nv21
  pub width_is : f.width ≡ pos width
  pub height_is : f.height ≡ pos height
  pub size_is : length f.payload ≡ width * height * 3 / 2
  pub luma : (i : ℕ) → i < width * height → get_elem? f.payload i ≡ some 16
  pub chroma :
      (i : ℕ)
      → width * height + i < width * height * 3 / 2
      → get_elem? f.payload (width * height + i) ≡ some 128

get_elem?-replicate : (n i a : ℕ) → i < n → get_elem? (replicate n a) i ≡ some a
get_elem?-replicate zero i a h = absurd (omega (arith, h))
get_elem?-replicate (suc n) zero a h = refl
get_elem?-replicate (suc n) (suc i) a h = get_elem?-replicate n i a (omega (arith, h))

-- Two runs of equal bytes.
module _ (n m a b : ℕ) where
  abbrev runs : Bytes
  runs = replicate n a ++ replicate m b

  length-runs : length runs ≡ n + m
  length-runs =
      length-append (replicate n a) (replicate m b)
      ∙ omega (arith, length-replicate n a, length-replicate m b)

  first_run : (i : ℕ) → i < n → get_elem? runs i ≡ some a
  first_run i h =
      get_elem?-append_front (replicate n a) (replicate m b) i
        (omega (arith, h, length-replicate n a))
      ∙ get_elem?-replicate n i a h

  second_run : (i : ℕ) → i < m → get_elem? runs (n + i) ≡ some b
  second_run i h =
      ap (λ k. get_elem? runs (k + i)) (omega (arith, length-replicate n a))
      ∙ get_elem?-append_behind (replicate n a) (replicate m b) i
      ∙ get_elem?-replicate m i b h

pub placeholder-IsBlack :
    (now : ℤ) (width height : ℕ) → IsBlack width height (placeholder now (pos width) (pos height))
unfolding placeholder
placeholder-IsBlack now width height =
    let pixels = width * height in
    let rest = pixels * 3 / 2 - pixels in
    let half : pixels ≤ pixels * 3 / 2 = omega arith in
    record {
      format_is = refl;
      width_is = refl;
      height_is = refl;
      size_is = length-runs pixels rest 16 128 ∙ omega (arith, half);
      luma = λ i h. first_run pixels rest 16 128 i h;
      chroma = λ i h. second_run pixels rest 16 128 i (omega (arith, h));
    }
