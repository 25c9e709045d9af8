-- ===== src/Yuv/Inside.antt =====
-- Which bytes the conversion of native/yuv420_converter.cpp reads: two memories that agree inside the three
-- planes give the same result.
use vcames.Common.{
  ℕ, zero, suc, ◌+◌, ◌-◌, ◌*◌, ◌/◌, ◌≤◌, ◌<◌, ◌≡◌, refl, ap, ◌∙◌, inl, inr, Bool, [], ◌∷◌, arith,
  ◌==◌, Bool-cases, Option-cases,
}
use vcames.Yuv.{
  add_size, size_mod, Memory, YuvPlaneView, Converted, base, checked_offset, strided, interleaved,
  luma_row, luma_rows, has_pairs, chroma_row, chroma_rows, in_front, convert_yuv420_to_nv21,
}
use vcames.Yuv.Bounds.{InBounds, checked_offset_iff}

-- The two memories have the same bytes inside a plane.
abbrev pub Agree : Memory → Memory → YuvPlaneView → Type 0
Agree mem mem' plane = (i : ℕ) → i < plane.limit → mem (base plane + i) ≡ mem' (base plane + i)

last_sample :
    (n step first limit : ℕ) → first + (suc n - 1) * step < limit → first + n * step < limit
last_sample n step first limit h = let e : suc n - 1 ≡ n = omega arith in rw e at h

module _ (mem mem' : Memory) where
  strided-Agree :
      (plane : YuvPlaneView) (step n first : ℕ)
      → Agree mem mem' plane
      → first + n * step < plane.limit
      → strided mem (base plane + first) step (suc n)
        ≡ strided mem' (base plane + first) step (suc n)
  unfolding strided
  strided-Agree plane step zero first same h = ap (λ x. x ∷ []) (same first (omega (arith, h)))
  strided-Agree plane step (suc n) first same h =
      let split : suc n * step ≡ step + n * step = omega arith in
      let here : first < plane.limit = omega (arith, h, split) in
      let next : first + step + n * step < plane.limit = omega (arith, h, split) in
      let assoc : base plane + first + step ≡ base plane + (first + step) = omega arith in
      let rest = strided-Agree plane step n (first + step) same next in
      let tail : strided mem (base plane + first + step) step (suc n)
          ≡ strided mem' (base plane + first + step) step (suc n) =
        rw assoc rest in
      ap (λ c. c ∷ strided mem (base plane + first + step) step (suc n)) (same first here)
      ∙ ap (◌∷◌ (mem' (base plane + first))) tail

  luma_row-Agree :
      (y : YuvPlaneView) (x row width first : ℕ)
      → Agree mem mem' y
      → InBounds y x row width first
      → luma_row mem y first width ≡ luma_row mem' y first width
  unfolding luma_row
  luma_row-Agree y x row zero first same b = absurd (omega (arith, b))
  luma_row-Agree y x row (suc n) first same b = elim (Bool-cases (y.pixel_stride == 1)) [
    | inl packed ↦
        let one : y.pixel_stride ≡ 1 = ground arith in
        let last : first + n * 1 < y.limit =
          last_sample n 1 first y.limit (rw one at b.last_inside) in
        rw (luma_row, packed) (strided-Agree y 1 n first same last)
    | inr apart ↦
        rw (luma_row, apart)
          (strided-Agree y y.pixel_stride n first same
            (last_sample n _ first y.limit b.last_inside))
  ]

  interleaved-Agree :
      (u v : YuvPlaneView) (n u_first v_first : ℕ)
      → Agree mem mem' u
      → Agree mem mem' v
      → u_first + n * u.pixel_stride < u.limit
      → v_first + n * v.pixel_stride < v.limit
      → interleaved mem (base v + v_first) v.pixel_stride (base u + u_first) u.pixel_stride (suc n)
        ≡ interleaved mem'
            (base v + v_first)
            v.pixel_stride
            (base u + u_first)
            u.pixel_stride
            (suc n)
  unfolding interleaved
  interleaved-Agree u v zero u_first v_first same_u same_v hu hv =
      ap (λ c. c ∷ mem (base u + u_first) ∷ []) (same_v v_first (omega (arith, hv)))
      ∙ ap (λ c. mem' (base v + v_first) ∷ c ∷ []) (same_u u_first (omega (arith, hu)))
  interleaved-Agree u v (suc n) u_first v_first same_u same_v hu hv =
      let us = u.pixel_stride in
      let vs = v.pixel_stride in
      let split_u : suc n * us ≡ us + n * us = omega arith in
      let split_v : suc n * vs ≡ vs + n * vs = omega arith in
      let assoc_u : base u + u_first + us ≡ base u + (u_first + us) = omega arith in
      let assoc_v : base v + v_first + vs ≡ base v + (v_first + vs) = omega arith in
      let rest =
        interleaved-Agree u v n (u_first + us) (v_first + vs) same_u same_v
          (omega (arith, hu, split_u)) (omega (arith, hv, split_v)) in
      let tail : interleaved mem (base v + v_first + vs) vs (base u + u_first + us) us (suc n)
          ≡ interleaved mem' (base v + v_first + vs) vs (base u + u_first + us) us (suc n) =
        rw (assoc_u, assoc_v) rest in
      ap
        (λ c.
          c
          ∷ mem (base u + u_first)
          ∷ interleaved mem (base v + v_first + vs) vs (base u + u_first + us) us (suc n))
        (same_v v_first (omega (arith, hv, split_v)))
      ∙ ap
          (λ c.
            mem' (base v + v_first)
            ∷ c
            ∷ interleaved mem (base v + v_first + vs) vs (base u + u_first + us) us (suc n))
          (same_u u_first (omega (arith, hu, split_u)))
      ∙ ap (λ s. mem' (base v + v_first) ∷ mem' (base u + u_first) ∷ s) tail

  chroma_row-Agree :
      (u v : YuvPlaneView) (x row width u_first v_first : ℕ)
      → Agree mem mem' u
      → Agree mem mem' v
      → InBounds u x row (width / 2) u_first
      → InBounds v x row (width / 2) v_first
      → chroma_row mem u v u_first v_first width ≡ chroma_row mem' u v u_first v_first width
  unfolding chroma_row has_pairs
  chroma_row-Agree u v x row zero u_first v_first same_u same_v bu bv = absurd (omega (arith, bu))
  chroma_row-Agree u v x row (suc n) u_first v_first same_u same_v bu bv =
      elim (Bool-cases (has_pairs u v u_first v_first (suc n))) [
        | inl pairs ↦
            let starts : v_first ≤ v.limit = ground arith in
            let room : suc n ≤ v.limit - v_first = ground arith in
            rw (chroma_row, pairs)
              (strided-Agree v 1 n v_first same_v (omega (arith, starts, room)))
        | inr apart ↦
            rw (chroma_row, apart)
              (by_half (suc n / 2) bu.some_samples bu.last_inside bv.last_inside)
      ]
    where
      by_half :
          (half : ℕ)
          → 0 < half
          → u_first + (half - 1) * u.pixel_stride < u.limit
          → v_first + (half - 1) * v.pixel_stride < v.limit
          → interleaved mem (base v + v_first) v.pixel_stride (base u + u_first) u.pixel_stride half
            ≡ interleaved mem'
                (base v + v_first)
                v.pixel_stride
                (base u + u_first)
                u.pixel_stride
                half
      by_half zero h hu hv = absurd (omega (arith, h))
      by_half (suc half) h hu hv =
          interleaved-Agree u v half u_first v_first same_u same_v
            (last_sample half _ u_first u.limit hu) (last_sample half _ v_first v.limit hv)

  chroma_rows-Agree :
      (u v : YuvPlaneView) (left top width rows row_index : ℕ)
      → u.limit < size_mod
      → v.limit < size_mod
      → Agree mem mem' u
      → Agree mem mem' v
      → chroma_rows mem u v left top width rows row_index
        ≡ chroma_rows mem' u v left top width rows row_index
  unfolding chroma_rows
  chroma_rows-Agree u v left top width zero row_index lu lv same_u same_v = refl
  chroma_rows-Agree u v left top width (suc rows) row_index lu lv same_u same_v =
      let row = add_size top row_index in
      let rest = chroma_rows-Agree u v left top width rows (row_index + 1) lu lv same_u same_v in
      elim (Option-cases (checked_offset u left row (width / 2))) [
        | inl outside ↦ rw (chroma_rows, outside) refl
        | inr (uf, is_u) ↦ elim (Option-cases (checked_offset v left row (width / 2))) [
          | inl outside ↦ rw (chroma_rows, is_u, outside) refl
          | inr (vf, is_v) ↦
              let bu = (checked_offset_iff u left row (width / 2) uf lu).0 is_u in
              let bv = (checked_offset_iff v left row (width / 2) vf lv).0 is_v in
              let this = chroma_row-Agree u v left row width uf vf same_u same_v bu bv in
              rw (chroma_rows, is_u, is_v)
                (ap (λ c. in_front c (chroma_rows mem u v left top width rows (row_index + 1))) this
                  ∙ ap (in_front (chroma_row mem' u v uf vf width)) rest)
        ]
      ]

  luma_rows-Agree :
      (y : YuvPlaneView) (left top width rows row_index : ℕ) (rest rest' : Converted)
      → y.limit < size_mod
      → Agree mem mem' y
      → rest ≡ rest'
      → luma_rows mem y left top width rows row_index rest
        ≡ luma_rows mem' y left top width rows row_index rest'
  unfolding luma_rows
  luma_rows-Agree y left top width zero row_index rest rest' ly same e = e
  luma_rows-Agree y left top width (suc rows) row_index rest rest' ly same e =
      let row = add_size top row_index in
      let later = luma_rows-Agree y left top width rows (row_index + 1) rest rest' ly same e in
      elim (Option-cases (checked_offset y left row width)) [
        | inl outside ↦ rw (luma_rows, outside) refl
        | inr (first, is) ↦
            let b = (checked_offset_iff y left row width first ly).0 is in
            let this = luma_row-Agree y left row width first same b in
            rw (luma_rows, is)
              (ap (λ c. in_front c (luma_rows mem y left top width rows (row_index + 1) rest)) this
                ∙ ap (in_front (luma_row mem' y first width)) later)
      ]

  pub convert_yuv420_to_nv21-Agree :
      (y u v : YuvPlaneView) (crop_left crop_top width height : ℕ) (given : Bool) (output_size : ℕ)
      → y.limit < size_mod
      → u.limit < size_mod
      → v.limit < size_mod
      → Agree mem mem' y
      → Agree mem mem' u
      → Agree mem mem' v
      → convert_yuv420_to_nv21 mem y u v crop_left crop_top width height given output_size
        ≡ convert_yuv420_to_nv21 mem' y u v crop_left crop_top width height given output_size
  unfolding convert_yuv420_to_nv21
  convert_yuv420_to_nv21-Agree y u v crop_left crop_top width height given output_size ly lu lv
        same_y same_u same_v =
      let chroma =
        chroma_rows-Agree u v (crop_left / 2) (crop_top / 2) width (height / 2) 0 lu lv same_u
          same_v in
      let luma = luma_rows-Agree y crop_left crop_top width height 0 _ _ ly same_y chroma in
      rw (convert_yuv420_to_nv21, luma) refl
