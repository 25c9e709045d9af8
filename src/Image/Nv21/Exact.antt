-- ===== src/Image/Nv21/Exact.antt =====
-- `MapOutputToSource` of daemon/src/image_transform.cpp where nothing is scaled: the coordinates are
-- whole numbers, which a `float` holds exactly.
use vcames.Common.{
  ℕ, ◌+◌, ◌-◌, ◌*◌, ◌^◌, ◌≤◌, ◌<◌, ◌≡◌, refl, ◌∙◌, Bool, true, false, arith, if◌then◌else◌, ℤ, pos,
  ◌==ℤ◌,
}
use vcames.Image.{
  Floats, Geometry, SourceCoordinate, invert_orientation, scale_of, oriented, mirrored,
  map_output_to_source,
}

abbrev pub exact_limit : ℕ
exact_limit = 2 ^ 24

-- Single precision is exact on the multiples of 1/2 up to 2^23: `halves a b` is (a - b) / 2.
pub record IsExact {ℓ} {Float : Type ℓ} (floats : Floats Float) (halves : ℕ → ℕ → Float)
    : Type ℓ where
  pub same_half : (a b c d : ℕ) → a + d ≡ c + b → halves a b ≡ halves c d
  pub half_is : floats.half ≡ halves 1 0
  pub from_is : (n : ℕ) → n * 2 ≤ exact_limit → floats.from_int (pos n) ≡ halves (n * 2) 0
  pub mul_half :
      (n : ℕ) → n * 2 ≤ exact_limit → floats.mul (floats.from_int (pos n)) floats.half ≡ halves n 0
  pub add_is :
      (a b c d : ℕ)
      → a + c ≤ exact_limit
      → b + d ≤ exact_limit
      → floats.add (halves a b) (halves c d) ≡ halves (a + c) (b + d)
  pub sub_is :
      (a b c d : ℕ)
      → a + d ≤ exact_limit
      → b + c ≤ exact_limit
      → floats.sub (halves a b) (halves c d) ≡ halves (a + d) (b + c)
  pub div_self :
      (n : ℕ)
      → 0 < n
      → n * 2 ≤ exact_limit
      → floats.div (floats.from_int (pos n)) (floats.from_int (pos n)) ≡ floats.from_int (pos 1)
  pub div_one :
      (a b : ℕ)
      → a ≤ exact_limit
      → b ≤ exact_limit
      → floats.div (halves a b) (floats.from_int (pos 1)) ≡ halves a b
  pub larger_one :
      floats.larger (floats.from_int (pos 1)) (floats.from_int (pos 1)) ≡ floats.from_int (pos 1)
  pub lround_is : (n : ℕ) → n * 2 ≤ exact_limit → floats.lround (halves (n * 2) 0) ≡ pos n

abbrev pub flip : Bool → ℕ → ℕ → ℕ
flip mirror w x = if mirror then w - 1 - x else x

abbrev pub whole {ℓ} : {Float : Type ℓ} → (ℕ → ℕ → Float) → ℕ → ℕ → SourceCoordinate Float
whole halves x y = record { x = halves (x * 2) 0; y = halves (y * 2) 0 }

module _ {ℓ} {Float : Type ℓ} (floats : Floats Float) (halves : ℕ → ℕ → Float)
    (exact : IsExact floats halves) where
  abbrev one : Float
  one = floats.from_int (pos 1)

  scale_of-one :
      (w h : ℕ)
      → 0 < w
      → 0 < h
      → w * 2 ≤ exact_limit
      → h * 2 ≤ exact_limit
      → scale_of floats (pos w) (pos h) w h ≡ one
  unfolding scale_of
  scale_of-one w h wide high small_w small_h =
      rw (scale_of, exact.div_self w wide small_w, exact.div_self h high small_h) exact.larger_one

  oriented-whole :
      (x w : ℕ) → x < w → w * 3 ≤ exact_limit → oriented floats x w w one ≡ halves (x * 2) 0
  unfolding oriented
  oriented-whole x w inside small =
      rw
        (
          oriented,
          exact.mul_half w (omega (arith, small)),
          exact.from_is x (omega arith),
          exact.half_is,
        )
        (rw (exact.add_is (x * 2) 0 1 0 (omega arith) (omega arith)) (
          rw (exact.sub_is (x * 2 + 1) (0 + 0) w 0 (omega arith) (omega arith)) (
            rw (exact.div_one (x * 2 + 1 + 0) (0 + 0 + w) (omega arith) (omega arith)) (
              rw (exact.add_is (x * 2 + 1 + 0) (0 + 0 + w) w 0 (omega arith) (omega arith)) (
                exact.sub_is (x * 2 + 1 + 0 + w) (0 + 0 + w + 0) 1 0 (omega arith) (omega arith)
                ∙ exact.same_half _ _ (x * 2) 0 (omega arith))))))

  -- A whole coordinate, counted from the other end.
  from_end :
      (x w : ℕ)
      → x < w
      → w * 3 ≤ exact_limit
      → floats.sub (floats.from_int (pos (w - 1))) (halves (x * 2) 0) ≡ halves ((w - 1 - x) * 2) 0
  from_end x w inside small = rw (exact.from_is (w - 1) (omega (arith, small))) (
      exact.sub_is ((w - 1) * 2) 0 (x * 2) 0 (omega arith) (omega arith)
      ∙ exact.same_half _ _ ((w - 1 - x) * 2) 0 (omega arith))

  mirrored-whole :
      (mirror : Bool) (x w : ℕ)
      → x < w
      → w * 3 ≤ exact_limit
      → mirrored floats mirror w (halves (x * 2) 0) ≡ halves (flip mirror w x * 2) 0
  unfolding mirrored
  mirrored-whole true x w inside small = from_end x w inside small
  mirrored-whole false x w inside small = refl

  module _ (mirror : Bool) (w h : ℕ) (wide : 0 < w) (high : 0 < h) (small_w : w * 3 ≤ exact_limit)
      (small_h : h * 3 ≤ exact_limit) where
    abbrev upright : ℤ → Geometry
    upright rotation = record {
      output_width = w;
      output_height = h;
      source_width = w;
      source_height = h;
      rotation = rotation;
      mirror = mirror;
    }

    abbrev sideways : ℤ → Geometry
    sideways rotation = record {
      output_width = h;
      output_height = w;
      source_width = w;
      source_height = h;
      rotation = rotation;
      mirror = mirror;
    }

    flip_inside : (v x : ℕ) → x < v → flip mirror v x < v
    flip_inside v x inside = ground arith

    orient :
        (u v x y : ℕ)
        → 0 < u
        → 0 < v
        → u * 3 ≤ exact_limit
        → v * 3 ≤ exact_limit
        → x < u
        → y < v
        → (mirrored floats mirror u (oriented floats x u u (scale_of floats (pos u) (pos v) u v))
            ≡ halves (flip mirror u x * 2) 0)
          × (oriented floats y v v (scale_of floats (pos u) (pos v) u v) ≡ halves (y * 2) 0)
    orient u v x y some_u some_v small_u small_v in_u in_v =
        let scale =
          scale_of-one u v some_u some_v (omega (arith, small_u)) (omega (arith, small_v)) in
        (
          rw (scale, oriented-whole x u in_u small_u) (mirrored-whole mirror x u in_u small_u),
          rw (scale, oriented-whole y v in_v small_v) refl,
        )

    pub lands_0 :
        (x y : ℕ)
        → x < w
        → y < h
        → map_output_to_source floats (upright (pos 0)) x y ≡ whole halves (flip mirror w x) y
    unfolding map_output_to_source invert_orientation ◌==ℤ◌
    lands_0 x y left below =
        let (at_x, at_y) = orient w h x y wide high small_w small_h left below in
        rw (map_output_to_source, at_x, at_y) refl

    pub lands_90 :
        (x y : ℕ)
        → x < h
        → y < w
        → map_output_to_source floats (sideways (pos 90)) x y
          ≡ whole halves y (h - 1 - flip mirror h x)
    unfolding map_output_to_source invert_orientation ◌==ℤ◌
    lands_90 x y left below =
        let (at_x, at_y) = orient h w x y high wide small_h small_w left below in
        rw
          (
            map_output_to_source,
            at_x,
            at_y,
            invert_orientation,
            from_end (flip mirror h x) h (flip_inside h x left) small_h,
          )
          refl

    pub lands_180 :
        (x y : ℕ)
        → x < w
        → y < h
        → map_output_to_source floats (upright (pos 180)) x y
          ≡ whole halves (w - 1 - flip mirror w x) (h - 1 - y)
    unfolding map_output_to_source invert_orientation ◌==ℤ◌
    lands_180 x y left below =
        let (at_x, at_y) = orient w h x y wide high small_w small_h left below in
        rw
          (
            map_output_to_source,
            at_x,
            at_y,
            invert_orientation,
            from_end (flip mirror w x) w (flip_inside w x left) small_w,
            from_end y h below small_h,
          )
          refl

    pub lands_270 :
        (x y : ℕ)
        → x < h
        → y < w
        → map_output_to_source floats (sideways (pos 270)) x y
          ≡ whole halves (w - 1 - y) (flip mirror h x)
    unfolding map_output_to_source invert_orientation ◌==ℤ◌
    lands_270 x y left below =
        let (at_x, at_y) = orient h w x y high wide small_h small_w left below in
        rw (map_output_to_source, at_x, at_y, invert_orientation, from_end y w below small_w) refl
