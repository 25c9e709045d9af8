-- ===== src/Image/Gather.antt =====
-- The loops over the rows and pixels of daemon/src/image_transform.cpp, as lists of parts.
use vcames.Common.{
  ℕ, zero, suc, ◌+◌, ◌*◌, ◌<◌, ◌≡◌, refl, subst, ◌∙◌, inl, inr, Option, some, [], ◌∷◌, ◌++◌, arith,
  Option-cases, length, get_elem?, all, All, length-append, get_elem?-append_front,
  get_elem?-append_behind, Bytes,
}
use native.Mathlib.Nat.{mul-le-mul_right}
use vcames.Common.Partial.{◌>>=◌}

-- The parts of the indices from `i` on, `n` of them, one after the other.
unfoldable pub gather : (ℕ → Option Bytes) → ℕ → ℕ → Option Bytes
gather part zero i = some []
gather part (suc n) i = do here ← part i; rest ← gather part n (i + 1); some (here ++ rest)

-- `all` holds `n` parts of `k` bytes each, those of the indices from `i` on.
pub record IsGathered (part : ℕ → Option Bytes) (k n i : ℕ) (all : Bytes) : Type 0 where
  pub gathered : gather part n i ≡ some all
  pub size : length all ≡ n * k
  pub places :
      (j l : ℕ) (b : Bytes)
      → j < n
      → l < k
      → part (i + j) ≡ some b
      → get_elem? all (j * k + l) ≡ get_elem? b l

abbrev pub PartOf : (ℕ → Option Bytes) → ℕ → ℕ → Type 0
PartOf part k i = (b : Bytes) × (part i ≡ some b) × (length b ≡ k)

module _ (part : ℕ → Option Bytes) (k : ℕ) where
  extend :
      (n i : ℕ) (b rest : Bytes)
      → part i ≡ some b
      → length b ≡ k
      → IsGathered part k n (i + 1) rest
      → IsGathered part k (suc n) i (b ++ rest)
  unfolding gather
  extend n i b rest given sized g = record {
    gathered = rw given (rw g.gathered refl);
    size = size;
    places = places;
  }
    where
      size : length (b ++ rest) ≡ suc n * k
      size = rw (length-append b rest, sized, g.size) (omega arith)

      places :
          (j l : ℕ) (c : Bytes)
          → j < suc n
          → l < k
          → part (i + j) ≡ some c
          → get_elem? (b ++ rest) (j * k + l) ≡ get_elem? c l
      places zero l c small inside at_i =
          let here : i + 0 ≡ i = omega arith in
          let start : 0 * k + l ≡ l = omega arith in
          let same : b ≡ c = cc (rw here at at_i) in
          rw (start, ← same) (get_elem?-append_front b rest l (rw sized inside))
      places (suc j) l c small inside at_i =
          let next : i + suc j ≡ i + 1 + j = omega arith in
          let behind : suc j * k + l ≡ length b + (j * k + l) = rw sized (omega arith) in
          rw behind (
            get_elem?-append_behind b rest (j * k + l)
            ∙ g.places j l c (omega (arith, small)) inside (rw next at at_i))

  pub gather-IsGathered :
      (n i : ℕ)
      → ((j : ℕ) → j < n → PartOf part k (i + j))
      → (all : Bytes) × IsGathered part k n i all
  unfolding gather
  gather-IsGathered zero i h = (
    [],
    record {
      gathered = refl;
      size = omega arith;
      places = λ j l b small _ _. absurd (omega (arith, small));
    },
  )
  gather-IsGathered (suc n) i h =
      let (b, given, sized) = h 0 (omega arith) in
      let here : i + 0 ≡ i = omega arith in
      let (rest, g) = gather-IsGathered n (i + 1) (λ j l.
        let next : i + suc j ≡ i + 1 + j = omega arith in
        subst (PartOf part k) next (h (suc j) (omega (arith, l)))) in
      (b ++ rest, extend n i b rest (rw here at given) sized g)

-- The rows of a picture, from the top, each from the left.
unfoldable pub grid : (ℕ → ℕ → Option Bytes) → ℕ → ℕ → Option Bytes
unfolding gather
grid part width height = gather (λ y. gather (λ x. part x y) width 0) height 0

pub record IsFilled (part : ℕ → ℕ → Option Bytes) (k width height : ℕ) (all : Bytes) : Type 0 where
  pub gathered : grid part width height ≡ some all
  pub size : length all ≡ height * (width * k)
  pub places :
      (x y l : ℕ) (b : Bytes)
      → x < width
      → y < height
      → l < k
      → part x y ≡ some b
      → get_elem? all (y * (width * k) + (x * k + l)) ≡ get_elem? b l

unsome : {a b : Bytes} → some a ≡ some b → a ≡ b
unsome e = cc

pub in_row : (x width k l : ℕ) → x < width → l < k → x * k + l < width * k
in_row x width k l left inside = omega (arith, inside, mul-le-mul_right k left)

module _ (part : ℕ → ℕ → Option Bytes) (k width height : ℕ) where
  abbrev PartsInside : Type 0
  PartsInside = (x y : ℕ) → x < width → y < height → PartOf (λ i. part i y) k x

  row_of :
      PartsInside → (y : ℕ) → y < height → (row : Bytes) × IsGathered (λ x. part x y) k width 0 row
  row_of h y l =
      gather-IsGathered (λ x. part x y) k width 0 (λ j small. h (0 + j) y (omega (arith, small)) l)

  pub grid-IsFilled : PartsInside → (all : Bytes) × IsFilled part k width height all
  unfolding grid
  grid-IsFilled h =
      let (all, g) =
        gather-IsGathered (λ y. gather (λ x. part x y) width 0) (width * k) height 0
          (λ j small.
            let (row, r) = row_of h (0 + j) (omega (arith, small)) in (row, r.gathered, r.size)) in
      (all, record { gathered = g.gathered; size = g.size; places = places g })
    where
      places :
          {all : Bytes}
          → IsGathered (λ y. gather (λ x. part x y) width 0) (width * k) height 0 all
          → (x y l : ℕ) (b : Bytes) → x < width
          → y < height
          → l < k
          → part x y ≡ some b
          → get_elem? all (y * (width * k) + (x * k + l)) ≡ get_elem? b l
      places g x y l b left below inside given =
          let at_y : 0 + y ≡ y = omega arith in
          let at_x : 0 + x ≡ x = omega arith in
          let (row, r) = row_of h y below in
          g.places y (x * k + l) row below (in_row x width k l left inside) (rw at_y r.gathered)
          ∙ r.places x l b left inside (rw at_x given)

-- What holds of every byte of the parts holds of every byte of the whole.
module _ {κ} (P : ℕ → Type κ) where
  All-append : (xs ys : Bytes) → All P xs → All P ys → All P (xs ++ ys)
  All-append [] ys a b = b
  All-append (x ∷ xs) ys a b = (a.0, All-append xs ys a.1 b)

  pub gather-All :
      (part : ℕ → Option Bytes) (n i : ℕ) (all : Bytes)
      → ((j : ℕ) (b : Bytes) → part j ≡ some b → All P b)
      → gather part n i ≡ some all
      → All P all
  unfolding gather
  gather-All part zero i all h e = subst (All P) (unsome e) tt
  gather-All part (suc n) i all h e = elim (Option-cases (part i)) [
    | inl none_here ↦ cc (rw none_here at e)
    | inr (here, is_here) ↦ elim (Option-cases (gather part n (i + 1))) [
      | inl none_left ↦ cc (rw (is_here, none_left) at e)
      | inr (rest, is_rest) ↦
          subst (All P) (unsome (rw (is_here, is_rest) at e))
            (All-append here rest (h i here is_here) (gather-All part n (i + 1) rest h is_rest))
    ]
  ]

  pub grid-All :
      (part : ℕ → ℕ → Option Bytes) (width height : ℕ) (all : Bytes)
      → ((x y : ℕ) (b : Bytes) → part x y ≡ some b → All P b)
      → grid part width height ≡ some all
      → All P all
  unfolding grid
  grid-All part width height all h e =
      gather-All _ height 0 all (λ y row. gather-All (λ x. part x y) width 0 row (λ x b. h x y b)) e
