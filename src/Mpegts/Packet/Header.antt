-- ===== src/Mpegts/Packet/Header.antt =====
-- The header that a multiplexer writes, read back.
use cheetah_media_engine.Prelude.{
  ℕ, ◌+◌, ◌*◌, ◌/◌, ◌%◌, ◌^◌, ◌<◌, ◌≡◌, refl, Bool, true, false, List, [], ◌∷◌, ◌++◌, length, some,
  arith,
}
use cheetah_media_engine.Mpegts.Error.{ok}
use cheetah_media_engine.Mpegts.Packet.{TsPacket, parse, payload, bit_set, pcr_of}

abbrev pub as_bit : Bool → ℕ
as_bit true = 1
as_bit false = 0

-- The four bytes that a multiplexer writes for these fields; `control` has two bits.
abbrev pub header_bytes : Bool → Bool → ℕ → ℕ → ℕ → List ℕ
header_bytes err start pid control counter =
    0x47
    ∷ (as_bit err * 128 + as_bit start * 64 + pid / 256)
    ∷ (pid % 256)
    ∷ (control * 16 + counter)
    ∷ []

-- The adaptation field of seven bytes with a clock reference, after its length byte.
abbrev pub clock_bytes : Bool → Bool → ℕ → ℕ → List ℕ
clock_bytes breaks random base ext =
    7
    ∷ (as_bit breaks * 128 + as_bit random * 64 + 16)
    ∷ (base / 2 ^ 25 % 256)
    ∷ (base / 2 ^ 17 % 256)
    ∷ (base / 2 ^ 9 % 256)
    ∷ (base / 2 % 256)
    ∷ (base % 2 * 128 + 126 + ext / 256)
    ∷ (ext % 256)
    ∷ []

bit_7 : (e s : Bool) (p : ℕ) → p < 32 → bit_set (as_bit e * 128 + as_bit s * 64 + p) 7 ≡ e
bit_7 true true p h = ground arith
bit_7 true false p h = ground arith
bit_7 false true p h = ground arith
bit_7 false false p h = ground arith

bit_6 : (e s : Bool) (p : ℕ) → p < 32 → bit_set (as_bit e * 128 + as_bit s * 64 + p) 6 ≡ s
bit_6 true true p h = ground arith
bit_6 true false p h = ground arith
bit_6 false true p h = ground arith
bit_6 false false p h = ground arith

bit_4 : (e s : Bool) → bit_set (as_bit e * 128 + as_bit s * 64 + 16) 4 ≡ true
bit_4 true true = refl
bit_4 true false = refl
bit_4 false true = refl
bit_4 false false = refl

pid_bits :
    (e s : Bool) (pid : ℕ)
    → pid < 8192
    → (as_bit e * 128 + as_bit s * 64 + pid / 256) % 32 * 256 + pid % 256 ≡ pid
pid_bits true true pid h = omega arith
pid_bits true false pid h = omega arith
pid_bits false true pid h = omega arith
pid_bits false false pid h = omega arith

clock_value :
    (base ext : ℕ) (rest : List ℕ)
    → base < 2 ^ 33
    → ext < 300
    → pcr_of (
        (base / 2 ^ 25 % 256)
        ∷ (base / 2 ^ 17 % 256)
        ∷ (base / 2 ^ 9 % 256)
        ∷ (base / 2 % 256)
        ∷ (base % 2 * 128 + 126 + ext / 256)
        ∷ (ext % 256)
        ∷ rest)
      ≡ base * 300 + ext
clock_value base ext rest h k = omega arith

abbrev pub clock_packet : Bool → Bool → Bool → Bool → ℕ → ℕ → ℕ → TsPacket
clock_packet e s breaks random pid counter pcr = record {
  pid = pid;
  payload_unit_start = s;
  adaptation_field_control = 3;
  continuity_counter = counter;
  transport_error = e;
  discontinuity = breaks;
  has_pcr = true;
  pcr = some pcr;
  has_random_access_indicator = random;
}

abbrev pub clock_packet_bytes : Bool → Bool → Bool → Bool → ℕ → ℕ → ℕ → ℕ → List ℕ → List ℕ
clock_packet_bytes e s breaks random pid counter base ext rest =
    header_bytes e s pid 3 counter ++ clock_bytes breaks random base ext ++ rest

-- A packet with a clock reference, written by a multiplexer, is parsed to what was written, and
-- its payload is what follows the adaptation field.
pub parse-clock_packet :
    (e s breaks random : Bool) (pid counter base ext : ℕ) (rest : List ℕ)
    → pid < 8192
    → counter < 16
    → base < 2 ^ 33
    → ext < 300
    → length rest ≡ 176
    → (parse (clock_packet_bytes e s breaks random pid counter base ext rest)
        ≡ ok (clock_packet e s breaks random pid counter (base * 300 + ext)))
      × (payload
            (clock_packet e s breaks random pid counter (base * 300 + ext))
            (clock_packet_bytes e s breaks random pid counter base ext rest)
          ≡ rest)
unfolding parse payload
parse-clock_packet e s breaks random pid counter base ext rest hp hc hb he l =
    let control : (48 + counter) / 16 % 4 ≡ 3 = omega arith in
    let count : (48 + counter) % 16 ≡ counter = omega arith in
    (
      rw
          (
            l,
            control,
            bit_4 breaks random,
            bit_7 breaks random 16 (omega arith),
            bit_6 breaks random 16 (omega arith),
            bit_7 e s (pid / 256) (omega arith),
            bit_6 e s (pid / 256) (omega arith),
            pid_bits e s pid hp,
            count,
            clock_value base ext [] hb he,
          )
          refl,
      rw l refl,
    )
