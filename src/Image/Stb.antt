-- ===== src/Image/Stb.antt =====
-- The calls of stb_image in daemon/src/image_transform.cpp, and what the code makes of their answers.
use vcames.Common.{
  ℕ, min, ◌⊎◌, inl, inr, Bool, Option, List, [], ◌∷◌, ◌++◌, if◌then◌else◌, ℤ, pos, negsuc, Bytes,
}
use vcames.Image.{ImageError}

-- A decoded picture, three bytes for each pixel.
pub record Decoded : Type 0 where
  pub pixels : Bytes
  pub decoded_width : ℤ
  pub decoded_height : ℤ

-- What stb_image answers: `stbi_load_from_memory`, with `none` for a null pointer, and
-- `stbi_write_jpg_to_func`, with the pieces that it hands to its callback and whether its result is not
-- zero. The arguments of the latter are the size, the pixels and the quality.
pub record Stb : Type 0 where
  pub load : Bytes → Option Decoded
  pub write_jpg : ℤ → ℤ → Bytes → ℤ → List Bytes × Bool

-- `WriteToVector`
unfoldable pub write_to_vector : Bytes → Bytes → Bytes
write_to_vector output piece = output ++ piece

unfoldable pub write_pieces : Bytes → List Bytes → Bytes
unfolding write_to_vector
write_pieces output [] = output
write_pieces output (piece ∷ pieces) = write_pieces (write_to_vector output piece) pieces

-- The encoding into an output that has been cleared.
unfoldable pub encode : Stb → ImageError → ℤ → ℤ → Bytes → ℤ → Bytes ⊎ ImageError
unfolding write_pieces
encode stb why width height pixels quality =
    let (pieces, succeeded) = stb.write_jpg width height pixels quality in
    if succeeded then inl (write_pieces [] pieces) else inr why

-- `ClampByte`
unfoldable pub clamp_byte : ℤ → ℕ
clamp_byte (pos n) = min n 255
clamp_byte (negsuc n) = 0

-- What a call leaves: the output with the size of the source, or an error. It does not end well, as
-- `none`, when it reads outside a buffer or cannot have its memory.
abbrev pub Sized : Type 0
Sized = (Bytes × ℤ × ℤ) ⊎ ImageError

abbrev pub sized : Decoded → Bytes → Sized
sized d output = inl (output, d.decoded_width, d.decoded_height)
