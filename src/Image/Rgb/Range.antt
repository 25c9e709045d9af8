-- ===== src/Image/Rgb/Range.antt =====
-- The sums of daemon/src/image_transform.cpp that make luma and chroma of a colour, and their range.
use vcames.Common.{
  ℕ, ◌+◌, ◌-◌, ◌*◌, ◌/◌, ◌≤◌, ◌<◌, ◌≡◌, ap, ◌∙◌, inl, inr, arith, leb, leb→le, Bool-cases, ◌⊖◌,
  ◌+ℤ◌, shift_right_8, quarter, ⊖-pos, ⊖-negsuc, ℤ, pos,
}
use vcames.Image.Stb.{clamp_byte}
use vcames.Image.Rgb.{Colour, luma_of, u_of, v_of, mean_of}

pub record IsColour (c : Colour) : Type 0 where
  pub red_small : c.red ≤ 255
  pub green_small : c.green ≤ 255
  pub blue_small : c.blue ≤ 255

-- The shift rounds down, so an offset of 128 is one of 128 * 256 before the shift.
shifted : (a b : ℕ) → b ≤ a + 32768 → shift_right_8 (a ⊖ b) +ℤ pos 128 ≡ pos ((a + 32768 - b) / 256)
unfolding shift_right_8 ◌+ℤ◌
shifted a b h = elim (Bool-cases (leb b a)) [
  | inl above ↦
      let e = ⊖-pos a b (leb→le b a above) in rw e (ap pos (omega (arith, leb→le b a above)))
  | inr below ↦
      let lt : a < b = ground arith in
      let e = ⊖-negsuc a b lt in
      let back : (b - a - 1) / 256 + 1 ≤ 128 = omega (arith, h, lt) in
      rw e (⊖-pos 128 ((b - a - 1) / 256 + 1) back ∙ ap pos (omega (arith, h, lt)))
]

abbrev pub Chroma : ℤ → Type 0
Chroma v = (k : ℕ) × (v ≡ pos k) × (16 ≤ k) × (k ≤ 240)

pub luma_of-range : (c : Colour) → IsColour c → (16 ≤ luma_of c) × (luma_of c ≤ 235)
unfolding luma_of clamp_byte ◌+ℤ◌ shift_right_8
luma_of-range c h = (omega (arith, h), omega (arith, h))

pub u_of-range : (c : Colour) → IsColour c → Chroma (u_of c)
unfolding u_of
u_of-range c h = (
  _,
  shifted (112 * c.blue + 128) (38 * c.red + 74 * c.green) (omega (arith, h)),
  omega (arith, h),
  omega (arith, h),
)

pub v_of-range : (c : Colour) → IsColour c → Chroma (v_of c)
unfolding v_of
v_of-range c h = (
  _,
  shifted (112 * c.red + 128) (94 * c.green + 18 * c.blue) (omega (arith, h)),
  omega (arith, h),
  omega (arith, h),
)

pub mean_of-range :
    (a b c d : ℤ)
    → Chroma a
    → Chroma b
    → Chroma c
    → Chroma d
    → (16 ≤ mean_of a b c d) × (mean_of a b c d ≤ 240)
unfolding mean_of ◌+ℤ◌ quarter clamp_byte
mean_of-range a b c d (i, ai, i0, i1) (j, bj, j0, j1) (k, ck, k0, k1) (l, dl, l0, l1) =
    rw (ai, bj, ck, dl) (omega arith, omega arith)
