-- ===== src/Common/Text.antt =====
-- Byte strings: literals, comparison, search.
use Prim.Native.Nat.{ℕ, zero, suc}
use Prim.Native.Char.{code}
use Prim.Native.String.{String}
use mathlib.Core.Path.{◌≡◌, refl, ap}
use mathlib.Core.Logic.{◌↔◌, inl, inr}
use mathlib.Core.Bool.{Bool, true, false, not, ◌&&◌}
use mathlib.Core.List.{List, [], ◌∷◌, ◌++◌}
use mathlib.Core.Option
use mathlib.Core.Option.{Option, none, some}
use native.Mathlib.Omega.{arith}
use vcames.Common.Tests.{◌==◌, if◌then◌else◌, Bool-cases, Option-cases}
use vcames.Common.Lists.{length, take, drop, all}

abbrev pub Bytes : Type 0
Bytes = List ℕ

-- The bytes of an ASCII literal.
unfoldable pub bytes : String → Bytes
bytes String.[] = []
bytes (String.◌∷◌ c s) = code c ∷ bytes s

-- `operator==` of two strings.
unfoldable pub equal : Bytes → Bytes → Bool
equal [] right = elim right [ [] ↦ true | _ ↦ false ]
equal (c ∷ left) [] = false
equal (c ∷ left) (d ∷ right) = elim (c == d) [ true ↦ equal left right | false ↦ false ]

pub equal_iff : (left right : Bytes) → (equal left right ≡ true) ↔ (left ≡ right)
unfolding equal
equal_iff [] [] = ground arith
equal_iff [] (d ∷ right) = ground arith
equal_iff (c ∷ left) [] = ground arith
equal_iff (c ∷ left) (d ∷ right) = elim (Bool-cases (c == d)) [
  | inl same ↦ ground (arith, equal_iff left right)
  | inr differ ↦ ground arith
]

pub equal_self : (a : Bytes) → equal a a ≡ true
equal_self a = (equal_iff a a).1 refl

unfoldable pub starts_with : Bytes → Bytes → Bool
starts_with [] s = true
starts_with (p ∷ ps) [] = false
starts_with (p ∷ ps) (c ∷ s) = p == c && starts_with ps s

pub starts_with-append : (p s : Bytes) → starts_with p (p ++ s) ≡ true
unfolding starts_with
starts_with-append [] s = refl
starts_with-append (x ∷ p) s = ground (arith, starts_with-append p s)

pub starts_with-drop : (p s : Bytes) → starts_with p s ≡ true → s ≡ p ++ drop (length p) s
unfolding starts_with
starts_with-drop [] s h = refl
starts_with-drop (x ∷ p) [] h = cc
starts_with-drop (x ∷ p) (c ∷ s) h = ground (arith, starts_with-drop p s)

-- `std::string::find` of a text that is not empty: the place of its first occurrence.
unfoldable pub find : Bytes → Bytes → Option ℕ
unfolding starts_with
find p [] = none
find p (c ∷ s) = if starts_with p (c ∷ s) then some 0 else Option.map suc (find p s)

-- The place of the first byte that passes the test.
unfoldable pub find_index : (ℕ → Bool) → Bytes → Option ℕ
find_index t [] = none
find_index t (c ∷ s) = if t c then some 0 else Option.map suc (find_index t s)

-- A hit at `i` cuts the text there.
pub find-split :
    (p s : Bytes) (i : ℕ) → find p s ≡ some i → s ≡ take i s ++ (p ++ drop (length p) (drop i s))
unfolding find
find-split p [] i h = cc
find-split p (c ∷ s) zero h = elim (Bool-cases (starts_with p (c ∷ s))) [
  | inl e ↦ starts_with-drop p (c ∷ s) e
  | inr e ↦ ground (arith, Option-cases (find p s))
]
find-split p (c ∷ s) (suc i) h = elim (Bool-cases (starts_with p (c ∷ s))) [
  | inl e ↦ ground arith
  | inr e ↦ elim (Option-cases (find p s)) [
    | inl n ↦ ground arith
    | inr (j, n) ↦ let q : i ≡ j = ground arith in ap (◌∷◌ c) (find-split p s i (rw q n))
  ]
]

pub find-starts_with : (p s : Bytes) (i : ℕ) → find p s ≡ some i → starts_with p (drop i s) ≡ true
unfolding find
find-starts_with p [] i h = cc
find-starts_with p (c ∷ s) zero h = ground (arith, Option-cases (find p s))
find-starts_with p (c ∷ s) (suc i) h = elim (Option-cases (find p s)) [
  | inl n ↦ ground arith
  | inr (j, n) ↦ let q : i ≡ j = ground arith in find-starts_with p s i (rw q n)
]

-- No byte of `a` begins the pattern, so the hit is behind `a`.
pub find-append :
    (x : ℕ) (p a s : Bytes)
    → all (λ c. not (x == c)) a ≡ true
    → find (x ∷ p) (a ++ ((x ∷ p) ++ s)) ≡ some (length a)
unfolding find all
find-append x p [] s h = rw (starts_with-append (x ∷ p) s)
find-append x p (c ∷ a) s h = ground (arith, find-append x p a s)

pub find_index-none :
    (t : ℕ → Bool) (s : Bytes) → find_index t s ≡ none → all (λ c. not (t c)) s ≡ true
unfolding find_index all
find_index-none t [] h = refl
find_index-none t (c ∷ s) h = ground (arith, find_index-none t s)

-- The part before the first hit has none, and the hit begins the rest.
pub find_index-some :
    (t : ℕ → Bool) (s : Bytes) (n : ℕ)
    → find_index t s ≡ some n
    → (all (λ c. not (t c)) (take n s) ≡ true)
      × ((x : ℕ) × (r : Bytes) × (drop n s ≡ x ∷ r) × (t x ≡ true))
unfolding find_index all
find_index-some t [] n h = cc
find_index-some t (c ∷ s) zero h =
    (refl, (c, s, refl, ground (arith, Option-cases (find_index t s))))
find_index-some t (c ∷ s) (suc n) h = elim (Option-cases (find_index t s)) [
  | inl e ↦ ground arith
  | inr (j, e) ↦
      let here : t c ≡ false = ground arith in
      let q : n ≡ j = ground arith in
      let (clean, hit) = find_index-some t s n (rw q e) in (ground arith, hit)
]

pub find_index-all :
    (t : ℕ → Bool) (a : Bytes) → all (λ c. not (t c)) a ≡ true → find_index t a ≡ none
unfolding find_index all
find_index-all t [] h = refl
find_index-all t (c ∷ a) h = ground (arith, find_index-all t a)

pub find_index-append :
    (t : ℕ → Bool) (a : Bytes) (x : ℕ) (r : Bytes)
    → all (λ c. not (t c)) a ≡ true
    → t x ≡ true
    → find_index t (a ++ x ∷ r) ≡ some (length a)
unfolding find_index all
find_index-append t [] x r h e = rw e
find_index-append t (c ∷ a) x r h e = ground (arith, find_index-append t a x r)
