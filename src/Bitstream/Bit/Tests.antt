-- ===== src/Bitstream/Bit/Tests.antt =====
-- Tests of the bit cursor.
use cheetah_media_engine.Prelude.{
  ◌+◌, ◌-◌, ◌^◌, ◌≤◌, ◌<◌, ◌≡◌, ◌⊎◌, refl, [], ◌∷◌, ◌++◌, take, drop, replicate, arith,
}
use cheetah_media_engine.Prelude.Int.{negsuc}
use cheetah_media_engine.Bitstream.Bit.{
  BitCursor, ok, err, overflow, end_of_stream, invalid_bits, new_cursor, read_bits, read_ue,
  read_se, leading_zeros, read_loop, read_bool, remaining_bits, skip_to_byte_alignment, read_u32,
}
use cheetah_media_engine.Bitstream.Bit.Stream.{bits, value, ahead}
use cheetah_media_engine.Bitstream.Bit.Read.{Reads, read_bits-Reads}
use cheetah_media_engine.Bitstream.Bit.Golomb.{read_ue-golomb, read_ue_zeros}

-- The codes 1 010 011 00100 00101, after the first one.
abbrev sample : BitCursor
sample = record { buf = 0xa6 ∷ 0x42 ∷ 0x80 ∷ []; index = 0; bit = 1 }

abbrev no_codes : BitCursor
no_codes = new_cursor (replicate 8 0 ++ 255 ∷ [])

read_bits-Reads_example :
    (11 ≤ 64
      × 11 ≤ remaining_bits sample
      × Reads (read_bits sample 11) (value (take 11 (ahead sample))) (drop 11 (ahead sample)))
    ⊎ (64 < 11 × (read_bits sample 11 ≡ err overflow sample))
    ⊎ (11 ≤ 64 × remaining_bits sample < 11 × (read_bits sample 11 ≡ err end_of_stream sample))
read_bits-Reads_example = read_bits-Reads sample 11 (omega arith)

read_ue-golomb_example :
    Reads (read_ue sample) (2 ^ 1 - 1 + 0) (0 ∷ 1 ∷ 1 ∷ 0 ∷ bits 8 0x42 ++ bits 8 0x80)
read_ue-golomb_example =
    read_ue-golomb sample 1 0 (0 ∷ 1 ∷ 1 ∷ 0 ∷ bits 8 0x42 ++ bits 8 0x80) (omega arith)
      (omega arith) (omega arith) refl

read_ue_zeros_example : (d : BitCursor) × (read_ue no_codes ≡ err invalid_bits d)
read_ue_zeros_example = read_ue_zeros no_codes (bits 8 255) (omega arith) refl

read_bits_crosses :
    read_bits sample 11 ≡ ok 0x264 (record { buf = 0xa6 ∷ 0x42 ∷ 0x80 ∷ []; index = 1; bit = 4 })
unfolding read_bits remaining_bits read_loop
read_bits_crosses = refl

skip_from_sample :
    skip_to_byte_alignment sample
    ≡ (7, record { buf = 0xa6 ∷ 0x42 ∷ 0x80 ∷ []; index = 1; bit = 0 })
unfolding skip_to_byte_alignment
skip_from_sample = refl

read_u32_too_wide : read_u32 sample 33 ≡ err overflow sample
unfolding read_u32
read_u32_too_wide = refl

read_se_minus_one :
    read_se (record { buf = 0xa6 ∷ 0x40 ∷ []; index = 0; bit = 4 })
    ≡ ok (negsuc 0) (record { buf = 0xa6 ∷ 0x40 ∷ []; index = 0; bit = 7 })
unfolding read_se read_ue read_bool read_bits remaining_bits read_loop leading_zeros
read_se_minus_one = refl
