-- ===== src/Flv/Writer/Tests.antt =====
-- Tests of the headers, on a tag of two bytes.
use cheetah_media_engine.Prelude.{ℕ, ◌≡◌, refl, true, List, [], ◌∷◌, ◌++◌, take, drop, arith}
use cheetah_media_engine.Flv.Error.{ok, err, malformed_tag}
use cheetah_media_engine.Flv.Header.{video_tag, parse_tag_header}
use cheetah_media_engine.Flv.Writer.{new_muxer, write_tag, size_bytes}
use cheetah_media_engine.Flv.Writer.ReadBack.{plain_tag, write_tag-IsRead}

write_tag-IsRead_example :
    (tag : List ℕ) × (write_tag (new_muxer true) video_tag 0x12345678 (7 ∷ 9 ∷ [])
      ≡ ok (record (new_muxer true) { output = [] ++ tag; previous_tag_size = 13 }))
    × (parse_tag_header tag ≡ ok (plain_tag video_tag 2 0x12345678))
    × (take 2 (drop 11 tag) ≡ 7 ∷ 9 ∷ [])
    × (drop 2 (drop 11 tag) ≡ size_bytes true 13)
write_tag-IsRead_example =
    write_tag-IsRead (new_muxer true) video_tag 0x12345678 (7 ∷ 9 ∷ []) (omega arith) (omega arith)

parse_unknown :
    parse_tag_header (1 ∷ 0 ∷ 0 ∷ 0 ∷ 0 ∷ 0 ∷ 0 ∷ 0 ∷ 0 ∷ 0 ∷ 0 ∷ []) ≡ err malformed_tag
unfolding parse_tag_header
parse_unknown = refl
