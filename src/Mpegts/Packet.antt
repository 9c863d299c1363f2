-- ===== src/Mpegts/Packet.antt =====
-- crates/cheetah-container-mpegts/src/packet.rs: the packet header and the adaptation field.
pub mod Header
mod Tests
use cheetah_media_engine.Prelude.{
  ℕ, ◌+◌, ◌*◌, ◌/◌, ◌%◌, ◌^◌, Bool, true, false, not, ◌&&◌, ◌||◌, List, [], ◌∷◌, length, get_or,
  drop, Option, none, some, sat_add, ltb, leb, ◌==◌, if◌then◌else◌,
}
use cheetah_media_engine.Bitstream.Bytes.{ByteCursor, new_bytes, read_u8, read_bytes}
use cheetah_media_engine.Mpegts.Error.{
  TsError, packet_too_short, lost_sync, Parsed, ok, err, ◌>>=◌, ok_or,
}

pub record TsPacket : Type 0 where
  pub pid : ℕ
  pub payload_unit_start : Bool
  pub adaptation_field_control : ℕ
  pub continuity_counter : ℕ
  pub transport_error : Bool
  pub discontinuity : Bool
  pub has_pcr : Bool
  pub pcr : Option ℕ
  pub has_random_access_indicator : Bool

abbrev pub default_packet : TsPacket
default_packet = record {
  pid = 0x1fff;
  payload_unit_start = false;
  adaptation_field_control = 1;
  continuity_counter = 0;
  transport_error = false;
  discontinuity = false;
  has_pcr = false;
  pcr = none;
  has_random_access_indicator = false;
}

-- What the adaptation field says; a packet without one says nothing.
pub record Adaptation : Type 0 where
  pub breaks : Bool
  pub entry_point : Bool
  pub clock : Option ℕ

abbrev pub no_adaptation : Adaptation
no_adaptation = record { breaks = false; entry_point = false; clock = none }

abbrev pub bit_set : ℕ → ℕ → Bool
bit_set b i = b / 2 ^ i % 2 == 1

-- The 33-bit base in units of 300 ticks, and the 9-bit extension.
abbrev pub pcr_of : List ℕ → ℕ
pcr_of b =
    (get_or b 0 0 * 2 ^ 25
        + get_or b 1 0 * 2 ^ 17
        + get_or b 2 0 * 2 ^ 9
        + get_or b 3 0 * 2
        + get_or b 4 0 / 2 ^ 7)
      % 2 ^ 33
      * 300
    + (get_or b 4 0 % 2 * 256 + get_or b 5 0)

abbrev pub parse_pcr : ℕ → ℕ → ByteCursor → Parsed Adaptation
parse_pcr flags adapt_len c =
    let said : Adaptation = record {
      breaks = bit_set flags 7;
      entry_point = bit_set flags 6;
      clock = none;
    } in
    if bit_set flags 4 && leb 7 adapt_len
    then (ok_or (read_bytes c 6) packet_too_short >>= λ r.
        ok (record said { clock = some (pcr_of r.0) }))
    else ok said

abbrev pub parse_adaptation : ByteCursor → Parsed Adaptation
parse_adaptation c = ok_or (read_u8 c) packet_too_short >>= λ len.
    if ltb 0 len.0
    then (ok_or (read_u8 len.1) packet_too_short >>= λ flags. parse_pcr flags.0 len.0 flags.1)
    else ok no_adaptation

abbrev pub is_some {ℓ} : {A : Type ℓ} → Option A → Bool
is_some (some a) = true
is_some none = false

abbrev pub make_packet : ℕ → ℕ → ℕ → Adaptation → TsPacket
make_packet b0 b1 b2 a = record {
  pid = b0 % 32 * 256 + b1;
  payload_unit_start = bit_set b0 6;
  adaptation_field_control = b2 / 16 % 4;
  continuity_counter = b2 % 16;
  transport_error = bit_set b0 7;
  discontinuity = a.breaks;
  has_pcr = is_some a.clock;
  pcr = a.clock;
  has_random_access_indicator = a.entry_point;
}

abbrev pub has_adaptation : ℕ → Bool
has_adaptation b2 = (b2 / 16 % 4 == 2) || (b2 / 16 % 4 == 3)

-- The packet of the three bytes after the sync byte, and of the bytes that follow them.
abbrev pub parse_fields : ℕ → ℕ → ℕ → ByteCursor → Parsed TsPacket
parse_fields b0 b1 b2 c =
    (if has_adaptation b2 then parse_adaptation c else ok no_adaptation) >>= λ a.
    ok (make_packet b0 b1 b2 a)

unfoldable pub parse : List ℕ → Parsed TsPacket
parse bytes =
    if ltb (length bytes) 188
    then err packet_too_short
    else ok_or (read_u8 (new_bytes bytes)) packet_too_short >>= λ sync.
        if not (sync.0 == 0x47)
        then err lost_sync
        else ok_or (read_u8 sync.1) packet_too_short >>= λ b0.
            ok_or (read_u8 b0.1) packet_too_short >>= λ b1.
            ok_or (read_u8 b1.1) packet_too_short >>= λ b2. parse_fields b0.0 b1.0 b2.0 b2.1

-- The bytes after the header and the adaptation field.
unfoldable pub payload : TsPacket → List ℕ → List ℕ
payload p bytes =
    if p.adaptation_field_control == 2
    then []
    else let start =
        4 + (if p.adaptation_field_control == 3 then sat_add 1 (get_or bytes 4 0) else 0) in
      if ltb (length bytes) start then [] else drop start bytes
