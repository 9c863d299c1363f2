-- ===== src/Mpegts/Pes/Stamp.antt =====
-- The timestamps of a PES header, written and read.
use cheetah_media_engine.Prelude.{
  ℕ, ◌+◌, ◌*◌, ◌/◌, ◌%◌, ◌^◌, ◌<◌, ◌≡◌, refl, ap, List, [], ◌∷◌, ◌++◌, length, ltb, false, some,
  arith,
}
use cheetah_media_engine.Prelude.Int.{pos}
use cheetah_media_engine.Mpegts.Error.{ok}
use cheetah_media_engine.Mpegts.Pes.{PesHeader, parse_timestamp, parse_pes_header}

-- The five bytes of a 33-bit timestamp, with its four bits of prefix and its marker bits.
abbrev pub stamp_bytes : ℕ → ℕ → List ℕ
stamp_bytes prefix t =
    (prefix * 16 + t / 2 ^ 30 * 2 + 1)
    ∷ (t / 2 ^ 22 % 256)
    ∷ (t / 2 ^ 15 % 128 * 2 + 1)
    ∷ (t / 2 ^ 7 % 256)
    ∷ (t % 128 * 2 + 1)
    ∷ []

pub parse_timestamp-stamp_bytes :
    (prefix t : ℕ) → t < 2 ^ 33 → parse_timestamp (stamp_bytes prefix t) ≡ pos t
parse_timestamp-stamp_bytes prefix t h = ap pos (omega arith)

-- The header that a multiplexer writes for a packet with both timestamps.
abbrev pub header_bytes : ℕ → ℕ → ℕ → ℕ → List ℕ
header_bytes id size pts dts =
    0 ∷ 0 ∷ 1 ∷ id ∷ (size / 256) ∷ (size % 256) ∷ 0x80 ∷ 0xc0 ∷ 10 ∷ stamp_bytes 3 pts
    ++ stamp_bytes 1 dts

abbrev pub both_stamps : ℕ → ℕ → ℕ → ℕ → PesHeader
both_stamps id size pts dts = record {
  stream_id = id;
  packet_length = size;
  pts = some (pos pts);
  dts = some (pos dts);
  header_size = 19;
}

-- A header with both timestamps is parsed to what was written, whatever follows it.
pub parse_pes_header-header_bytes :
    (id size pts dts : ℕ) (rest : List ℕ)
    → pts < 2 ^ 33
    → dts < 2 ^ 33
    → parse_pes_header (header_bytes id size pts dts ++ rest) ≡ ok (both_stamps id size pts dts)
unfolding parse_pes_header
parse_pes_header-header_bytes id size pts dts rest hp hd =
    let long : ltb (length (header_bytes id size pts dts ++ rest)) 9 ≡ false = ground arith in
    let whole : ltb (length (header_bytes id size pts dts ++ rest)) 19 ≡ false = ground arith in
    let bytes : size / 256 * 256 + size % 256 ≡ size = omega arith in
    rw
      (
        long,
        whole,
        bytes,
        parse_timestamp-stamp_bytes 3 pts hp,
        parse_timestamp-stamp_bytes 1 dts hd,
      )
      refl
