-- ===== src/Image/Halves.antt =====
-- Numbers that can stand for the `float` of daemon/src/image_transform.cpp: an integer `v` for v / 2.
use vcames.Common.{
  ℕ, ◌+◌, ◌-◌, ◌*◌, ◌/◌, ◌≤◌, ◌<◌, ◌≡◌, refl, sym, ap, ◌∙◌, ◌⊎◌, inl, inr, Bool, true, false, arith,
  ltb, leb, if◌then◌else◌, leb→le, Bool-cases, ◌⊖◌, ◌+ℤ◌, ⊖-pos, ⊖-negsuc, ℤ, pos, negsuc,
}
use native.Mathlib.Nat.{mul-div_cancel_left}
use vcames.Image.{Floats, clamp_index}
use vcames.Image.Nv21.Exact.{IsExact}
use vcames.Image.Rgb.Inside.{IsClamped}

abbrev twice : ℤ → ℤ
twice (pos n) = pos (n * 2)
twice (negsuc n) = negsuc (n * 2 + 1)

abbrev minus : ℤ → ℤ
minus (pos n) = 0 ⊖ n
minus (negsuc n) = pos (n + 1)

-- A product and a quotient, rounded towards zero.
abbrev times : ℤ → ℤ → ℤ
times (pos a) (pos b) = pos (a * b / 2)
times (pos a) (negsuc b) = 0 ⊖ a * (b + 1) / 2
times (negsuc a) (pos b) = 0 ⊖ (a + 1) * b / 2
times (negsuc a) (negsuc b) = pos ((a + 1) * (b + 1) / 2)

abbrev over : ℤ → ℤ → ℤ
over (pos a) (pos b) = pos (a * 2 / b)
over (negsuc a) (pos b) = 0 ⊖ (a + 1) * 2 / b
over (pos a) (negsuc b) = 0 ⊖ a * 2 / (b + 1)
over (negsuc a) (negsuc b) = pos ((a + 1) * 2 / (b + 1))

abbrev highest : ℤ → ℕ
highest (pos n) = n
highest (negsuc n) = 0

abbrev larger_of : ℤ → ℤ → ℤ
larger_of (pos a) (pos b) = if ltb a b then pos b else pos a
larger_of (negsuc a) (negsuc b) = if ltb a b then negsuc a else negsuc b
larger_of (pos a) (negsuc b) = pos a
larger_of (negsuc a) (pos b) = pos b

abbrev rounded : ℤ → ℤ
rounded (pos n) = pos ((n + 1) / 2)
rounded (negsuc n) = 0 ⊖ (n + 2) / 2

abbrev is_above_zero : ℤ → Bool
is_above_zero (pos n) = ltb 0 n
is_above_zero (negsuc n) = false

-- Every clamp of the code is one from zero on.
abbrev pub halves_of : Floats ℤ
halves_of = record {
  from_int = twice;
  half = pos 1;
  add = ◌+ℤ◌;
  sub = λ a b. a +ℤ minus b;
  mul = times;
  div = over;
  larger = larger_of;
  clamp = λ v low high. pos (clamp_index v (highest high));
  floor = λ v. pos (highest v / 2 * 2);
  is_finite = λ v. true;
  is_positive = is_above_zero;
  lround = rounded;
  to_int = λ v. pos (highest v / 2);
  to_byte = λ v. highest v / 2;
}

pub halves_of-IsClamped : IsClamped halves_of
unfolding clamp_index
halves_of-IsClamped = record {
  floor_clamped = λ v n small. (highest (pos (clamp_index v (n * 2))) / 2 * 2 / 2, refl, below v n);
  byte_clamped = byte;
}
  where
    below : (v : ℤ) (n : ℕ) → clamp_index v (n * 2) / 2 * 2 / 2 ≤ n
    below (pos k) n = omega arith
    below (negsuc k) n = omega arith

    byte : (v : ℤ) → clamp_index v (255 * 2) / 2 ≤ 255
    byte (pos k) = omega arith
    byte (negsuc k) = omega arith

-- A difference is natural, or negative.
cases : (a b : ℕ) → ((b ≤ a) × (a ⊖ b ≡ pos (a - b))) ⊎ ((a < b) × (a ⊖ b ≡ negsuc (b - a - 1)))
cases a b = elim (Bool-cases (leb b a)) [
  | inl above ↦ let le = leb→le b a above in inl (le, ⊖-pos a b le)
  | inr below ↦ let lt : a < b = ground arith in inr (lt, ⊖-negsuc a b lt)
]

same : (a b c d : ℕ) → a + d ≡ c + b → a ⊖ b ≡ c ⊖ d
same a b c d e = elim (cases a b) [
  | inl (le, is) ↦ is ∙ ap pos (omega (arith, e, le)) ∙ sym (⊖-pos c d (omega (arith, e, le)))
  | inr (lt, is) ↦ is ∙ ap negsuc (omega (arith, e, lt)) ∙ sym (⊖-negsuc c d (omega (arith, e, lt)))
]

sum : (a b c d : ℕ) → (a ⊖ b) +ℤ (c ⊖ d) ≡ (a + c) ⊖ (b + d)
unfolding ◌+ℤ◌
sum a b c d = elim (cases a b) [
  | inl (le, is) ↦ elim (cases c d) [
    | inl (le', is') ↦
        rw (is, is')
          (ap pos (omega (arith, le, le')) ∙ sym (⊖-pos (a + c) (b + d) (omega (arith, le, le'))))
    | inr (lt', is') ↦
        rw (is, is') (same (a - b) (d - c - 1 + 1) (a + c) (b + d) (omega (arith, le, lt')))
  ]
  | inr (lt, is) ↦ elim (cases c d) [
    | inl (le', is') ↦
        rw (is, is') (same (c - d) (b - a - 1 + 1) (a + c) (b + d) (omega (arith, lt, le')))
    | inr (lt', is') ↦
        rw (is, is')
          (ap negsuc (omega (arith, lt, lt'))
            ∙ sym (⊖-negsuc (a + c) (b + d) (omega (arith, lt, lt'))))
  ]
]

swapped : (a b : ℕ) → minus (a ⊖ b) ≡ b ⊖ a
swapped a b = elim (cases a b) [
  | inl (le, is) ↦ rw is (same 0 (a - b) b a (omega (arith, le)))
  | inr (lt, is) ↦ rw is (ap pos (omega (arith, lt)) ∙ sym (⊖-pos b a (omega (arith, lt))))
]

natural : (n : ℕ) → n ⊖ 0 ≡ pos n
natural n = ⊖-pos n 0 (omega arith) ∙ ap pos (omega arith)

quotient : (a b : ℕ) → over (a ⊖ b) (pos 2) ≡ a ⊖ b
quotient a b = elim (cases a b) [
  | inl (le, is) ↦ rw is (ap pos (omega arith))
  | inr (lt, is) ↦ rw is (
      same 0 _ 0 _ (omega arith)
      ∙ ⊖-negsuc 0 (b - a - 1 + 1) (omega arith)
      ∙ ap negsuc (omega arith))
]

pub halves_of-IsExact : IsExact halves_of ◌⊖◌
halves_of-IsExact = record {
  same_half = same;
  half_is = sym (natural 1);
  from_is = λ n _. sym (natural (n * 2));
  mul_half = λ n _. ap pos (omega arith) ∙ sym (natural n);
  add_is = λ a b c d _ _. sum a b c d;
  sub_is = λ a b c d _ _. rw (swapped c d) (sum a b d c);
  div_self = λ n above _. ap pos (mul-div_cancel_left 2 (omega (arith, above)));
  div_one = λ a b _ _. quotient a b;
  larger_one = refl;
  lround_is = λ n _. rw (natural (n * 2)) (ap pos (omega arith));
}
