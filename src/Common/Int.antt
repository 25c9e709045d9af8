-- ===== src/Common/Int.antt =====
-- The values of the source's `int`, over the native numbers.
use Prim.Native.Nat.{ℕ}
use mathlib.Core.Path.{◌≡◌, refl, ap}
use mathlib.Core.Logic.{◌↔◌}
use mathlib.Core.Bool.{Bool, true, false}
use native.Mathlib.Omega.{arith}
use Prim.Native.Nat.{zero, suc, ◌+◌, ◌-◌, ◌/◌, ◌%◌, ◌≤◌, ◌<◌}
use mathlib.Core.List.{List, [], ◌∷◌, ◌++◌}
use vcames.Common.Tests.{ltb, if◌then◌else◌, ◌==◌}

-- `negsuc n` is -(n + 1).
pub data ℤ : Type 0 where
  pos : ℕ → ℤ
  negsuc : ℕ → ℤ

infix 50 ◌==ℤ◌
unfoldable pub ◌==ℤ◌ : ℤ → ℤ → Bool
pos a ==ℤ pos b = a == b
negsuc a ==ℤ negsuc b = a == b
_ ==ℤ _ = false

pub ==ℤ_iff : (a b : ℤ) → ((a ==ℤ b) ≡ true) ↔ (a ≡ b)
unfolding ◌==ℤ◌
==ℤ_iff (pos a) (pos b) = ground arith
==ℤ_iff (negsuc a) (negsuc b) = ground arith
==ℤ_iff _ _ = ground arith

-- The decimal digits of a number, most significant first; `fuel` is at least the number of digits.
unfoldable pub decimal_digits : ℕ → ℕ → List ℕ
decimal_digits zero n = []
decimal_digits (suc fuel) n =
    let more = decimal_digits fuel (n / 10) in
    if ltb n 10 then (b'0' + n) ∷ [] else more ++ (b'0' + n % 10) ∷ []

-- `std::to_string` of an unsigned and of a signed number.
unfoldable pub to_decimal : ℕ → List ℕ
unfolding decimal_digits
to_decimal n = decimal_digits (n + 1) n

unfoldable pub to_string : ℤ → List ℕ
unfolding to_decimal
to_string (pos n) = to_decimal n
to_string (negsuc n) = b'-' ∷ to_decimal (n + 1)

infixl 60 ◌⊖◌
-- The difference of two natural numbers.
unfoldable pub ◌⊖◌ : ℕ → ℕ → ℤ
zero ⊖ zero = pos zero
suc a ⊖ zero = pos (suc a)
zero ⊖ suc b = negsuc b
suc a ⊖ suc b = a ⊖ b

infixl 60 ◌+ℤ◌
unfoldable pub ◌+ℤ◌ : ℤ → ℤ → ℤ
unfolding ◌⊖◌
pos a +ℤ pos b = pos (a + b)
pos a +ℤ negsuc b = a ⊖ (b + 1)
negsuc a +ℤ pos b = b ⊖ (a + 1)
negsuc a +ℤ negsuc b = negsuc (a + b + 1)

-- `>> 8` of an `int`: the quotient is rounded down.
unfoldable pub shift_right_8 : ℤ → ℤ
shift_right_8 (pos n) = pos (n / 256)
shift_right_8 (negsuc n) = negsuc (n / 256)

-- The quotient by 4, rounded towards zero.
unfoldable pub quarter : ℤ → ℤ
unfolding ◌⊖◌
quarter (pos n) = pos (n / 4)
quarter (negsuc n) = 0 ⊖ (n + 1) / 4

pub ⊖-pos : (a b : ℕ) → b ≤ a → a ⊖ b ≡ pos (a - b)
unfolding ◌⊖◌
⊖-pos zero zero h = refl
⊖-pos (suc a) zero h = ap pos (omega arith)
⊖-pos zero (suc b) h = absurd (omega (arith, h))
⊖-pos (suc a) (suc b) h =
    let e : suc a - suc b ≡ a - b = omega arith in rw e (⊖-pos a b (omega (arith, h)))

pub ⊖-negsuc : (a b : ℕ) → a < b → a ⊖ b ≡ negsuc (b - a - 1)
unfolding ◌⊖◌
⊖-negsuc zero zero h = absurd (omega (arith, h))
⊖-negsuc (suc a) zero h = absurd (omega (arith, h))
⊖-negsuc zero (suc b) h = ap negsuc (omega arith)
⊖-negsuc (suc a) (suc b) h =
    let e : suc b - suc a - 1 ≡ b - a - 1 = omega arith in rw e (⊖-negsuc a b (omega (arith, h)))
