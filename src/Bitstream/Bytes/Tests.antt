-- ===== src/Bitstream/Bytes/Tests.antt =====
-- Tests of the byte cursor.
use cheetah_media_engine.Prelude.{◌≡◌, refl, [], ◌∷◌, none, some}
use cheetah_media_engine.Bitstream.Bytes.{new_bytes, read_u16_be, read_u24_be}

read_u24_zero_one : read_u24_be (new_bytes (0 ∷ 0 ∷ 1 ∷ 9 ∷ [])) ≡ some (1, new_bytes (9 ∷ []))
read_u24_zero_one = refl

read_past_end : read_u16_be (new_bytes (1 ∷ [])) ≡ none
read_past_end = refl
