-- ===== src/Mpegts/Pes/Tests.antt =====
-- Tests of the PES packets.
use cheetah_media_engine.Prelude.{◌+◌, ◌≡◌, refl, true, List, ℕ, [], ◌∷◌, ◌++◌, arith}
use cheetah_media_engine.Mpegts.Error.{ok}
use cheetah_media_engine.Mpegts.Pes.{PesHeader, new_pes, feed}
use cheetah_media_engine.Mpegts.Pes.Stamp.{header_bytes, both_stamps, parse_pes_header-header_bytes}
use cheetah_media_engine.Mpegts.Pes.Assembly.{inside, whole, feed_pieces, concat, feed_assembles}

-- A video packet with seven bytes of payload, two of them in its first piece.
abbrev video_header : PesHeader
video_header = both_stamps 0xe0 20 90000 87000

abbrev first_piece : List ℕ
first_piece = header_bytes 0xe0 20 90000 87000 ++ 1 ∷ 2 ∷ []

feed_assembles_example :
    (feed new_pes first_piece true ≡ (inside video_header (20 + 6) first_piece, ok []))
    × (feed_pieces
          (inside video_header (20 + 6) first_piece)
          (((3 ∷ []) ∷ (4 ∷ 5 ∷ []) ∷ []) ++ (6 ∷ 7 ∷ []) ∷ [])
        ≡ (
          new_pes,
          ok (
              whole video_header
                (20 + 6)
                (first_piece ++ concat ((3 ∷ []) ∷ (4 ∷ 5 ∷ []) ∷ []) ++ 6 ∷ 7 ∷ [])
              ∷ []),
        ))
feed_assembles_example =
    feed_assembles video_header first_piece (6 ∷ 7 ∷ []) ((3 ∷ []) ∷ (4 ∷ 5 ∷ []) ∷ [])
      (omega arith) refl
      (parse_pes_header-header_bytes 0xe0 20 90000 87000 (1 ∷ 2 ∷ []) (omega arith) (omega arith))
      (omega arith) (omega arith) (omega arith) (omega arith) (omega arith)
