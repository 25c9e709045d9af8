-- ===== src/Image/Nv21.antt =====
-- `TransformNv21` of daemon/src/image_transform.cpp: a packed NV21 image is scaled, turned and mirrored.
pub mod Copy
pub mod Accepts
pub mod Exact
pub mod Turn
pub mod Found
pub mod Turned
use vcames.Common.{
  ℕ, zero, suc, ◌+◌, ◌-◌, ◌*◌, ◌/◌, ◌%◌, ◌^◌, ◌≤◌, ◌<◌, min, String, ◌≡◌, refl, sym, ap, subst, ◌∙◌,
  ◌≢◌, ◌↔◌, ◌⊎◌, inl, inr, Bool, true, false, not, ◌&&◌, ◌||◌, Option, none, some, List, [], ◌∷◌,
  ◌++◌, map, append-nil, append_assoc, arith, ltb, leb, ◌==◌, if◌then◌else◌, ltb→lt, lt→ltb, leb→le,
  le→leb, ==_iff, Bool-cases, Option-cases, length, is_empty, get_elem?, take, drop, replicate, any,
  all, All, length-append, take-append-drop, length-take, length-drop, take-append, drop-append,
  drop-drop, length-replicate, ℤ, pos, negsuc, ==ℤ_iff, ◌==ℤ◌, to_decimal, to_string, Bytes,
  equal_iff, equal_self, starts_with-drop, starts_with-append, find-split, find-starts_with,
  find-append, find_index-none, find_index-some, find_index-all, find_index-append, bytes, equal,
  starts_with, find, find_index,
}
use vcames.Common.Partial.{◌>>=◌}
use vcames.Image.{
  Floats, TransformOptions, ImageError, Transformed, refuse, odd_nv21, bad_nv21_size,
  bad_nv21_rotation, max_pixels, is_at_most_zero, is_odd, to_size, wrap_int, clamp_index,
  is_right_angle, SourceCoordinate, Geometry, map_output_to_source,
}
use vcames.Image.Gather.{grid}

abbrev pub geometry_of : ℤ → ℤ → TransformOptions → Geometry
geometry_of source_width source_height options = record {
  output_width = to_size options.width;
  output_height = to_size options.height;
  source_width = to_size source_width;
  source_height = to_size source_height;
  rotation = options.rotation;
  mirror = options.mirror;
}

-- The image is passed on as it is.
abbrev pub is_same : ℤ → ℤ → TransformOptions → Bool
is_same source_width source_height options =
    options.rotation ==ℤ pos 0
    && not options.mirror
    && options.width ==ℤ source_width
    && options.height ==ℤ source_height

abbrev pub has_bad_size : ℤ → ℤ → TransformOptions → Bool
has_bad_size source_width source_height options =
    is_at_most_zero source_width
    || is_at_most_zero source_height
    || is_at_most_zero options.width
    || is_at_most_zero options.height
    || is_odd source_width
    || is_odd source_height
    || is_odd options.width
    || is_odd options.height

-- `& ~1`
abbrev pub even : ℕ → ℕ
even n = n - n % 2

module _ {ℓ} {Float : Type ℓ} (floats : Floats Float) where
  abbrev pub nearest : Float → ℕ → ℕ
  nearest at highest = clamp_index (wrap_int (floats.lround at)) highest

  -- Where the byte of an output pixel is read.
  unfoldable pub luma_place : Geometry → ℕ → ℕ → ℕ
  luma_place g x y =
      let source = map_output_to_source floats g x y in
      nearest source.y (g.source_height - 1) * g.source_width
      + nearest source.x (g.source_width - 1)

  unfoldable pub chroma_place : Geometry → ℕ → ℕ → ℕ
  chroma_place g x y =
      let source = map_output_to_source floats g (x * 2) (y * 2) in
      g.source_width * g.source_height
      + even (nearest source.y (g.source_height - 2)) / 2 * g.source_width
      + even (nearest source.x (g.source_width - 2))

  abbrev pub luma_pixel : Bytes → Geometry → ℕ → ℕ → Option Bytes
  luma_pixel input g x y = do luma ← get_elem? input (luma_place g x y); some (luma ∷ [])

  abbrev pub chroma_pair : Bytes → Geometry → ℕ → ℕ → Option Bytes
  chroma_pair input g x y = do
    v ← get_elem? input (chroma_place g x y)
    u ← get_elem? input (chroma_place g x y + 1)
    some (v ∷ u ∷ [])

  -- The two loops over the output.
  unfoldable pub copy_pixels : Bytes → Geometry → Transformed
  unfolding grid
  copy_pixels input g = do
    luma ← grid (luma_pixel input g) g.output_width g.output_height
    chroma ← grid (chroma_pair input g) (g.output_width / 2) (g.output_height / 2)
    some (inl (luma ++ chroma))

  -- `TransformNv21`; the flag is `output != nullptr`. No product of two `int` wraps a `size_t`.
  unfoldable pub transform_nv21 : Bool → Bytes → ℤ → ℤ → TransformOptions → Transformed
  unfolding copy_pixels
  transform_nv21 given input source_width source_height options =
      if not given || has_bad_size source_width source_height options
      then refuse odd_nv21
      else (let source_pixels = to_size source_width * to_size source_height in
          if ltb max_pixels source_pixels || not (length input == source_pixels * 3 / 2)
          then refuse bad_nv21_size
          else if not (is_right_angle options.rotation)
          then refuse bad_nv21_rotation
          else if is_same source_width source_height options
          then some (inl input)
          else copy_pixels input (geometry_of source_width source_height options))
