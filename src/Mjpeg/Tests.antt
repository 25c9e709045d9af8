-- ===== src/Mjpeg/Tests.antt =====
-- Runs of the parser, and the theorems at concrete inputs.
use vcames.Common.{◌≡◌, refl, inl, true, some, List, [], ◌∷◌, arith, All, Bytes, starts_with, find}
use vcames.Mjpeg.{
  Appended, appended, append, feed, new_parser, soi_marker, eoi_marker, ends_with_ff,
}
use vcames.Mjpeg.Chunks.{start}
use vcames.Mjpeg.Scan.{scan}
use vcames.Mjpeg.Stream.{concat, feed_chunking, feed_succeeds}
use vcames.Mjpeg.Frames.{IsFrame, IsBounded, append-IsFrame, append-IsBounded}

abbrev frame : Bytes
frame = 0xff ∷ 0xd8 ∷ 7 ∷ 0xff ∷ 0xd9 ∷ []

-- A frame behind noise, cut in the middle of both markers.
abbrev chunks : List Bytes
chunks = (1 ∷ 0xff ∷ []) ∷ (0xd8 ∷ 7 ∷ 0xff ∷ []) ∷ (0xd9 ∷ 0xff ∷ []) ∷ []

abbrev left : Appended
left = record {
  frames = frame ∷ [];
  parser = record { max_frame_bytes = 5; buffer = 0xff ∷ [] };
  outcome = appended;
}

feed-chunks : feed (new_parser 5) chunks ≡ some left
unfolding feed append new_parser find starts_with soi_marker eoi_marker ends_with_ff
feed-chunks = refl

feed-whole : feed (new_parser 5) (concat chunks ∷ []) ≡ some left
unfolding feed append new_parser find starts_with soi_marker eoi_marker ends_with_ff concat
feed-whole = refl

feed_chunking_example :
    (left.frames ≡ left.frames)
    × (left.parser ≡ left.parser)
    × (left.frames ≡ (scan start (concat chunks)).frames)
feed_chunking_example =
    feed_chunking 5 chunks (concat chunks ∷ []) left left (unfold concat in refl) feed-chunks
      feed-whole refl refl

feed_succeeds_example :
    (a : Appended) × (feed (new_parser 8) chunks ≡ some a)
    × (a.outcome ≡ appended)
    × (a.frames ≡ (scan start (concat chunks)).frames)
feed_succeeds_example = feed_succeeds 8 chunks (unfold concat in omega arith)

append-whole : append (new_parser 5) true (concat chunks) ≡ some left
unfolding append new_parser find starts_with soi_marker eoi_marker ends_with_ff concat
append-whole = refl

append-IsFrame_example : All IsFrame (frame ∷ [])
append-IsFrame_example = append-IsFrame (new_parser 5) true (concat chunks) left append-whole

append-IsBounded_example : IsBounded left.parser
append-IsBounded_example =
    append-IsBounded (new_parser 5) true (concat chunks) left
      (inl (unfold new_parser in omega arith)) append-whole
