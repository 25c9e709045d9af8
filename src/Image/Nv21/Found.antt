-- ===== src/Image/Nv21/Found.antt =====
-- `TransformNv21` of daemon/src/image_transform.cpp: each rotation, with and without a mirror, where
-- nothing is scaled.
use vcames.Common.{
  ℕ, ◌+◌, ◌-◌, ◌*◌, ◌/◌, ◌%◌, ◌≤◌, ◌<◌, ◌≡◌, refl, ◌∙◌, Bool, true, false, arith, ℤ, pos,
}
use vcames.Image.{Floats, Geometry, map_output_to_source}
use vcames.Image.Nv21.{geometry_of, luma_place, chroma_place}
use vcames.Image.Nv21.Exact.{
  IsExact, exact_limit, whole, flip, lands_0, lands_90, lands_180, lands_270,
}
use vcames.Image.Nv21.Turn.{Place, place, turn, turn_options, luma_place-whole, chroma_place-whole}

abbrev Half : ℕ → ℕ → ℕ → Type 0
Half w n x = (n < w) × (n / 2 ≡ x)

unflip : (mirror : Bool) (w x : ℕ) → x < w → flip mirror w (flip mirror w x) ≡ x
unflip mirror w x inside = ground arith

flip_inside : (mirror : Bool) (w x : ℕ) → x < w → flip mirror w x < w
flip_inside mirror w x inside = ground arith

unflip-Half :
    (mirror : Bool) (w x : ℕ)
    → w % 2 ≡ 0
    → x < w / 2
    → Half w (flip mirror w (flip mirror (w / 2) x * 2)) x
unflip-Half true w x is_even inside = (omega arith, omega arith)
unflip-Half false w x is_even inside = (omega arith, omega arith)

end-Half : (w x : ℕ) → w % 2 ≡ 0 → x < w / 2 → Half w (w - 1 - (w / 2 - 1 - x) * 2) x
end-Half w x is_even inside = (omega arith, omega arith)

-- Both ends of a mirrored row.
both-Half :
    (mirror : Bool) (w x : ℕ)
    → w % 2 ≡ 0
    → x < w / 2
    → Half w (w - 1 - flip mirror w (flip mirror (w / 2) (w / 2 - 1 - x) * 2)) x
both-Half true w x is_even inside = (omega arith, omega arith)
both-Half false w x is_even inside = (omega arith, omega arith)

from_both :
    (mirror : Bool) (w x : ℕ) → x < w → w - 1 - flip mirror w (flip mirror w (w - 1 - x)) ≡ x
from_both mirror w x inside = ground arith

twice_both :
    (mirror : Bool) (w x : ℕ) → x < w → flip mirror w (flip mirror w (w - 1 - (w - 1 - x))) ≡ x
twice_both mirror w x inside = ground arith

twice-Half :
    (mirror : Bool) (w x : ℕ)
    → w % 2 ≡ 0
    → x < w / 2
    → Half w (flip mirror w (flip mirror (w / 2) (w / 2 - 1 - (w / 2 - 1 - x)) * 2)) x
twice-Half true w x is_even inside = (omega arith, omega arith)
twice-Half false w x is_even inside = (omega arith, omega arith)

in_pair : (w x : ℕ) → w % 2 ≡ 0 → x < w / 2 → x * 2 < w
in_pair w x is_even inside = omega arith

module _ {ℓ} {Float : Type ℓ} (floats : Floats Float) (mirror : Bool) (w h : ℕ) (quality : ℤ) where
  abbrev pub turned_geometry : ℕ → Geometry
  turned_geometry quarters = geometry_of (pos w) (pos h) (turn_options quarters mirror w h quality)

  abbrev pub to : ℕ → ℕ → ℕ → Place
  to quarters x y = turn quarters mirror (place w h x y)

  abbrev pub pair_to : ℕ → ℕ → ℕ → Place
  pair_to quarters x y = turn quarters mirror (place (w / 2) (h / 2) x y)

  -- Each turned place is inside the output, and is read where it comes from.
  pub record IsFound (quarters : ℕ) : Type 0 where
    pub area :
        (turned_geometry quarters).output_width * (turned_geometry quarters).output_height ≡ w * h
    pub width_is : (x y : ℕ) → (to quarters x y).width ≡ (turned_geometry quarters).output_width
    pub pair_width_is :
        (x y : ℕ) → (pair_to quarters x y).width * 2 ≡ (turned_geometry quarters).output_width
    pub inside :
        (x y : ℕ)
        → x < w
        → y < h
        → ((to quarters x y).x < (turned_geometry quarters).output_width)
          × ((to quarters x y).y < (turned_geometry quarters).output_height)
    pub pair_inside :
        (x y : ℕ)
        → x < w / 2
        → y < h / 2
        → ((pair_to quarters x y).x < (turned_geometry quarters).output_width / 2)
          × ((pair_to quarters x y).y < (turned_geometry quarters).output_height / 2)
    pub luma_found :
        (x y : ℕ)
        → x < w
        → y < h
        → luma_place floats (turned_geometry quarters) (to quarters x y).x (to quarters x y).y
          ≡ y * w + x
    pub chroma_found :
        (x y : ℕ)
        → x < w / 2
        → y < h / 2
        → chroma_place floats
            (turned_geometry quarters)
            (pair_to quarters x y).x
            (pair_to quarters x y).y
          ≡ w * h + (y * w + x * 2)

  module _ (halves : ℕ → ℕ → Float) (exact : IsExact floats halves) (wide : 0 < w) (high : 0 < h)
      (even_w : w % 2 ≡ 0) (even_h : h % 2 ≡ 0) (small_w : w * 3 ≤ exact_limit)
      (small_h : h * 3 ≤ exact_limit) where
    luma_by :
        (quarters X Y sx sy x y : ℕ)
        → map_output_to_source floats (turned_geometry quarters) X Y ≡ whole halves sx sy
        → sx ≡ x
        → sy ≡ y
        → x < w
        → y < h
        → luma_place floats (turned_geometry quarters) X Y ≡ y * w + x
    luma_by quarters X Y sx sy x y lands same_x same_y left below =
        luma_place-whole floats halves exact (turned_geometry quarters) small_w small_h X Y x y
          (rw (← same_x, ← same_y) lands) left below

    chroma_by :
        (quarters X Y sx sy x y : ℕ)
        → map_output_to_source floats (turned_geometry quarters) (X * 2) (Y * 2)
          ≡ whole halves sx sy
        → Half w sx x
        → Half h sy y
        → chroma_place floats (turned_geometry quarters) X Y ≡ w * h + (y * w + x * 2)
    chroma_by quarters X Y sx sy x y lands half_x half_y =
        chroma_place-whole floats halves exact (turned_geometry quarters) small_w small_h X Y sx sy
          lands half_x.0 half_y.0 even_w even_h
        ∙ rw (half_x.1, half_y.1) refl

    upper-Half : (v y : ℕ) → v % 2 ≡ 0 → y < v / 2 → Half v (y * 2) y
    upper-Half v y is_even inside = (omega arith, omega arith)

    pub unturned-IsFound : IsFound 0
    unturned-IsFound = record {
      area = refl;
      width_is = λ x y. refl;
      pair_width_is = λ x y. omega (arith, even_w);
      inside = λ x y left below. (flip_inside mirror w x left, below);
      pair_inside = λ x y left below. (flip_inside mirror (w / 2) x left, below);
      luma_found = λ x y left below.
          luma_by 0 _ _ _ _ x y
            (lands_0 floats halves exact mirror w h wide high small_w small_h _ _
              (flip_inside mirror w x left) below)
            (unflip mirror w x left) refl left below;
      chroma_found = λ x y left below.
          chroma_by 0 _ _ _ _ x y
            (lands_0 floats halves exact mirror w h wide high small_w small_h _ _
              (in_pair w _ even_w (flip_inside mirror (w / 2) x left)) (in_pair h y even_h below))
            (unflip-Half mirror w x even_w left) (upper-Half h y even_h below);
    }

    pub quarter-IsFound : IsFound 1
    quarter-IsFound = record {
      area = omega arith;
      width_is = λ x y. refl;
      pair_width_is = λ x y. omega (arith, even_h);
      inside = λ x y left below. (flip_inside mirror h _ (omega arith), left);
      pair_inside = λ x y left below. (flip_inside mirror (h / 2) _ (omega arith), left);
      luma_found = λ x y left below.
          luma_by 1 _ _ _ _ x y
            (lands_90 floats halves exact mirror w h wide high small_w small_h _ _
              (flip_inside mirror h _ (omega arith)) left)
            refl (from_both mirror h y below) left below;
      chroma_found = λ x y left below.
          chroma_by 1 _ _ _ _ x y
            (lands_90 floats halves exact mirror w h wide high small_w small_h _ _
              (in_pair h _ even_h (flip_inside mirror (h / 2) _ (omega arith)))
              (in_pair w x even_w left))
            (upper-Half w x even_w left) (both-Half mirror h y even_h below);
    }

    pub half_turn-IsFound : IsFound 2
    half_turn-IsFound = record {
      area = refl;
      width_is = λ x y. refl;
      pair_width_is = λ x y. omega (arith, even_w);
      inside = λ x y left below. (flip_inside mirror w _ (omega arith), omega arith);
      pair_inside = λ x y left below. (flip_inside mirror (w / 2) _ (omega arith), omega arith);
      luma_found = λ x y left below.
          luma_by 2 _ _ _ _ x y
            (lands_180 floats halves exact mirror w h wide high small_w small_h _ _
              (flip_inside mirror w _ (omega arith)) (omega arith))
            (from_both mirror w x left) (omega arith) left below;
      chroma_found = λ x y left below.
          chroma_by 2 _ _ _ _ x y
            (lands_180 floats halves exact mirror w h wide high small_w small_h _ _
              (in_pair w _ even_w (flip_inside mirror (w / 2) _ (omega arith)))
              (in_pair h _ even_h (omega arith)))
            (both-Half mirror w x even_w left) (end-Half h y even_h below);
    }

    pub three_quarters-IsFound : IsFound 3
    three_quarters-IsFound = record {
      area = omega arith;
      width_is = λ x y. refl;
      pair_width_is = λ x y. omega (arith, even_h);
      inside = λ x y left below. (flip_inside mirror h _ (omega arith), omega arith);
      pair_inside = λ x y left below. (flip_inside mirror (h / 2) _ (omega arith), omega arith);
      luma_found = λ x y left below.
          luma_by 3 _ _ _ _ x y
            (lands_270 floats halves exact mirror w h wide high small_w small_h _ _
              (flip_inside mirror h _ (omega arith)) (omega arith))
            (omega arith) (twice_both mirror h y below) left below;
      chroma_found = λ x y left below.
          chroma_by 3 _ _ _ _ x y
            (lands_270 floats halves exact mirror w h wide high small_w small_h _ _
              (in_pair h _ even_h (flip_inside mirror (h / 2) _ (omega arith)))
              (in_pair w _ even_w (omega arith)))
            (end-Half w x even_w left) (twice-Half mirror h y even_h below);
    }
