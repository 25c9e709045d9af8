-- ===== src/Yuv/Reference.antt =====
-- The conversion against a reference that reads every sample by its coordinates.
use vcames.Common.{
  ℕ, zero, suc, ◌+◌, ◌*◌, ◌/◌, ◌<◌, ◌≡◌, refl, sym, ap, ◌∙◌, inl, inr, true, false, none, [], ◌∷◌,
  ◌++◌, append_assoc, arith, ◌==◌, ==_iff, Bool-cases, Option-cases, length, length-append, Bytes,
}
use vcames.Yuv.{
  YuvPlaneView, Memory, Converted, size_mod, add_size, base, checked_offset, strided, luma_row,
  luma_rows, interleaved, has_pairs, chroma_row, chroma_rows, is_odd,
}
use vcames.Yuv.Bounds.{InBounds, checked_offset_iff}

-- The sample of a plane at column `x` of row `y`.
abbrev pub address_of : YuvPlaneView → ℕ → ℕ → ℕ
address_of p x y = base p + (p.position + y * p.row_stride + x * p.pixel_stride)

pub sample_row : Memory → YuvPlaneView → ℕ → ℕ → ℕ → Bytes
sample_row mem p x y zero = []
sample_row mem p x y (suc n) = mem (address_of p x y) ∷ sample_row mem p (x + 1) y n

pub sample_rows : Memory → YuvPlaneView → ℕ → ℕ → ℕ → ℕ → Bytes
sample_rows mem p x y width zero = []
sample_rows mem p x y width (suc n) =
    sample_row mem p x y width ++ sample_rows mem p x (y + 1) width n

pub pair_row : Memory → YuvPlaneView → YuvPlaneView → ℕ → ℕ → ℕ → Bytes
pair_row mem u v x y zero = []
pair_row mem u v x y (suc n) =
    mem (address_of v x y) ∷ mem (address_of u x y) ∷ pair_row mem u v (x + 1) y n

pub pair_rows : Memory → YuvPlaneView → YuvPlaneView → ℕ → ℕ → ℕ → ℕ → Bytes
pair_rows mem u v x y width zero = []
pair_rows mem u v x y width (suc n) =
    pair_row mem u v x y width ++ pair_rows mem u v x (y + 1) width n

-- The packed NV21 image of a crop: its luma rows, then a row of VU pairs for every two of them.
unfoldable pub nv21_of : Memory → YuvPlaneView → YuvPlaneView → YuvPlaneView → ℕ → ℕ → ℕ → ℕ → Bytes
nv21_of mem y u v left top width height =
    sample_rows mem y left top width height
    ++ pair_rows mem u v (left / 2) (top / 2) (width / 2) (height / 2)

strided-sample_row :
    (mem : Memory) (p : YuvPlaneView) (n x y a : ℕ)
    → a ≡ address_of p x y
    → strided mem a p.pixel_stride n ≡ sample_row mem p x y n
unfolding strided sample_row
strided-sample_row mem p zero x y a e = refl
strided-sample_row mem p (suc n) x y a e = rw e (
    ap (◌∷◌ (mem (address_of p x y)))
      (strided-sample_row mem p n (x + 1) y (address_of p x y + p.pixel_stride) (omega arith)))

interleaved-pair_row :
    (mem : Memory) (u v : YuvPlaneView) (n x y a b : ℕ)
    → a ≡ address_of v x y
    → b ≡ address_of u x y
    → interleaved mem a v.pixel_stride b u.pixel_stride n ≡ pair_row mem u v x y n
unfolding interleaved pair_row
interleaved-pair_row mem u v zero x y a b e f = refl
interleaved-pair_row mem u v (suc n) x y a b e f =
    rw (e, f)
      (ap (λ r. mem (address_of v x y) ∷ mem (address_of u x y) ∷ r)
        (interleaved-pair_row mem u v n (x + 1) y (address_of v x y + v.pixel_stride)
          (address_of u x y + u.pixel_stride) (omega arith) (omega arith)))

-- A row of pairs that lie side by side is one block.
strided-interleaved :
    (mem : Memory) (n m a b : ℕ)
    → m ≡ n + n
    → b ≡ a + 1
    → strided mem a 1 m ≡ interleaved mem a 2 b 2 n
unfolding strided interleaved
strided-interleaved mem zero m a b e f = rw e refl
strided-interleaved mem (suc n) m a b e f =
    let two : m ≡ suc (suc (n + n)) = omega arith in
    rw (two, f)
      (ap (λ r. mem a ∷ mem (a + 1) ∷ r)
        (ap (λ c. strided mem c 1 (n + n)) (omega arith)
          ∙ strided-interleaved mem n (n + n) (a + 2) (a + 1 + 2) refl (omega arith)))

pairs_facts :
    (u v : YuvPlaneView) (u_first v_first width : ℕ)
    → has_pairs u v u_first v_first width ≡ true
    → (u.pixel_stride ≡ 2) × (v.pixel_stride ≡ 2) × (base u + u_first ≡ base v + v_first + 1)
unfolding has_pairs
pairs_facts u v u_first v_first width h = ground arith

halves : (n : ℕ) → is_odd n ≡ false → n ≡ n / 2 + n / 2
halves n h = ground arith

luma_row-sample_row :
    (mem : Memory) (p : YuvPlaneView) (x y width first : ℕ)
    → InBounds p x y width first
    → luma_row mem p first width ≡ sample_row mem p x y width
unfolding luma_row
luma_row-sample_row mem p x y width first b = elim (Bool-cases (p.pixel_stride == 1)) [
  | inl e ↦ rw e (
      ap (λ s. strided mem (base p + first) s width) (sym ((==_iff p.pixel_stride 1).0 e))
      ∙ strided-sample_row mem p width x y (base p + first) (ap (λ f. base p + f) b.first_is))
  | inr e ↦
      rw e (strided-sample_row mem p width x y (base p + first) (ap (λ f. base p + f) b.first_is))
]

chroma_row-pair_row :
    (mem : Memory) (u v : YuvPlaneView) (x y width u_first v_first : ℕ)
    → is_odd width ≡ false
    → InBounds u x y (width / 2) u_first
    → InBounds v x y (width / 2) v_first
    → chroma_row mem u v u_first v_first width ≡ pair_row mem u v x y (width / 2)
unfolding chroma_row
chroma_row-pair_row mem u v x y width u_first v_first even bu bv =
    elim (Bool-cases (has_pairs u v u_first v_first width)) [
      | inl e ↦
          let (u_two, v_two, beside) = pairs_facts u v u_first v_first width e in
          rw e (
            strided-interleaved mem (width / 2) width (base v + v_first) (base u + u_first)
              (halves width even) beside
            ∙ ap (λ s. interleaved mem (base v + v_first) 2 (base u + u_first) s (width / 2))
                (sym u_two)
            ∙ ap
                (λ s.
                  interleaved mem (base v + v_first) s (base u + u_first) u.pixel_stride
                    (width / 2))
                (sym v_two)
            ∙ by_columns)
      | inr e ↦ rw e by_columns
    ]
  where
    by_columns :
        interleaved mem
          (base v + v_first)
          v.pixel_stride
          (base u + u_first)
          u.pixel_stride
          (width / 2)
        ≡ pair_row mem u v x y (width / 2)
    by_columns =
        interleaved-pair_row mem u v (width / 2) x y (base v + v_first) (base u + u_first)
          (ap (λ f. base v + f) bv.first_is) (ap (λ f. base u + f) bu.first_is)

add_small : (a b : ℕ) → a + b < size_mod → add_size a b ≡ a + b
add_small a b h = omega arith

pub luma_rows-sample_rows :
    (mem : Memory) (p : YuvPlaneView) (x top width rows r : ℕ) (rest : Converted)
    → p.limit < size_mod
    → top + r + rows < size_mod
    → (luma_rows mem p x top width rows r rest).error ≡ none
    → (rest.error ≡ none)
      × ((luma_rows mem p x top width rows r rest).written
          ≡ sample_rows mem p x (top + r) width rows ++ rest.written)
unfolding luma_rows sample_rows
luma_rows-sample_rows mem p x top width zero r rest size fits h = (h, refl)
luma_rows-sample_rows mem p x top width (suc rows) r rest size fits h =
    elim (Option-cases (checked_offset p x (add_size top r) width)) [
      | inl e ↦ cc (rw (e, luma_rows) at h)
      | inr (first, e) ↦
          let small : add_size top r ≡ top + r = add_small top r (omega arith) in
          let inside = (checked_offset_iff p x (top + r) width first size).0 (rw small at e) in
          let h' : (luma_rows mem p x top width rows (r + 1) rest).error ≡ none =
            rw (e, luma_rows) at h in
          let (passed, same) =
            luma_rows-sample_rows mem p x top width rows (r + 1) rest size (omega arith) h' in
          let next : top + (r + 1) ≡ top + r + 1 = omega arith in
          (
            passed,
            rw (e, luma_rows)
                (rw (same, luma_row-sample_row mem p x (top + r) width first inside, next)
                  (sym (
                    append_assoc (sample_row mem p x (top + r) width)
                      (sample_rows mem p x (top + r + 1) width rows) rest.written))),
          )
    ]

pub chroma_rows-pair_rows :
    (mem : Memory) (u v : YuvPlaneView) (x top width rows r : ℕ)
    → is_odd width ≡ false
    → u.limit < size_mod
    → v.limit < size_mod
    → top + r + rows < size_mod
    → (chroma_rows mem u v x top width rows r).error ≡ none
    → (chroma_rows mem u v x top width rows r).written
      ≡ pair_rows mem u v x (top + r) (width / 2) rows
unfolding chroma_rows pair_rows
chroma_rows-pair_rows mem u v x top width zero r even us vs fits h = refl
chroma_rows-pair_rows mem u v x top width (suc rows) r even us vs fits h =
    elim (Option-cases (checked_offset u x (add_size top r) (width / 2))) [
      | inl e ↦ cc (rw (e, chroma_rows) at h)
      | inr (u_first, e) ↦ elim (Option-cases (checked_offset v x (add_size top r) (width / 2))) [
        | inl f ↦ cc (rw (f, chroma_rows) at (rw (e, chroma_rows) at h))
        | inr (v_first, f) ↦
            let small : add_size top r ≡ top + r = add_small top r (omega arith) in
            let bu = (checked_offset_iff u x (top + r) (width / 2) u_first us).0 (rw small at e) in
            let bv = (checked_offset_iff v x (top + r) (width / 2) v_first vs).0 (rw small at f) in
            let h' : (chroma_rows mem u v x top width rows (r + 1)).error ≡ none =
              rw (f, chroma_rows) at (rw (e, chroma_rows) at h) in
            let same =
              chroma_rows-pair_rows mem u v x top width rows (r + 1) even us vs (omega arith) h' in
            let next : top + (r + 1) ≡ top + r + 1 = omega arith in
            rw (e, chroma_rows)
              (rw (f, chroma_rows)
                (rw
                  (
                    same,
                    chroma_row-pair_row mem u v x (top + r) width u_first v_first even bu bv,
                    next,
                  )
                  refl))
      ]
    ]

length-sample_row :
    (mem : Memory) (p : YuvPlaneView) (x y n : ℕ) → length (sample_row mem p x y n) ≡ n
unfolding sample_row
length-sample_row mem p x y zero = refl
length-sample_row mem p x y (suc n) = ap suc (length-sample_row mem p (x + 1) y n)

pub length-sample_rows :
    (mem : Memory) (p : YuvPlaneView) (x y width n : ℕ)
    → length (sample_rows mem p x y width n) ≡ n * width
unfolding sample_rows
length-sample_rows mem p x y width zero = omega arith
length-sample_rows mem p x y width (suc n) = omega (
  arith,
  length-append (sample_row mem p x y width) (sample_rows mem p x (y + 1) width n),
  length-sample_row mem p x y width,
  length-sample_rows mem p x (y + 1) width n,
)

length-pair_row :
    (mem : Memory) (u v : YuvPlaneView) (x y n : ℕ) → length (pair_row mem u v x y n) ≡ n + n
unfolding pair_row
length-pair_row mem u v x y zero = omega arith
length-pair_row mem u v x y (suc n) = omega (arith, length-pair_row mem u v (x + 1) y n)

pub length-pair_rows :
    (mem : Memory) (u v : YuvPlaneView) (x y width n : ℕ)
    → length (pair_rows mem u v x y width n) ≡ n * (width + width)
unfolding pair_rows
length-pair_rows mem u v x y width zero = omega arith
length-pair_rows mem u v x y width (suc n) = omega (
  arith,
  length-append (pair_row mem u v x y width) (pair_rows mem u v x (y + 1) width n),
  length-pair_row mem u v x y width,
  length-pair_rows mem u v x (y + 1) width n,
)
