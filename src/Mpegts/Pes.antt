-- ===== src/Mpegts/Pes.antt =====
-- crates/cheetah-container-mpegts/src/pes.rs: PES headers, and the assembly of PES packets.
pub mod Stamp
pub mod Assembly
mod Tests
use cheetah_media_engine.Prelude.{
  ℕ, ◌+◌, ◌-◌, ◌*◌, ◌/◌, ◌%◌, ◌^◌, min, Bool, true, false, not, ◌&&◌, ◌||◌, List, [], ◌∷◌, ◌++◌,
  length, get_or, take, drop, Option, none, some, unwrap_or, sat_add, ltb, leb, ◌==◌, if◌then◌else◌,
}
use cheetah_media_engine.Prelude.Int.{ℤ, pos}
use cheetah_media_engine.Types.Time.{MediaTime, ts_90k}
use cheetah_media_engine.Bitstream.Bytes.{ByteCursor, new_bytes, read_u8, read_bytes}
use cheetah_media_engine.Mpegts.Error.{
  TsError, need_more_data, invalid_input, limit_exceeded, Parsed, ok, err, ◌>>=◌, ok_or,
}

abbrev pub max_pes_size : ℕ
max_pes_size = 4 * 1024 * 1024

pub record PesHeader : Type 0 where
  pub stream_id : ℕ
  pub packet_length : ℕ
  pub pts : Option ℤ
  pub dts : Option ℤ
  pub header_size : ℕ

pub record PesOutput : Type 0 where
  pub header : PesHeader
  pub payload : List ℕ

pub record PesAssembler : Type 0 where
  pub raw : List ℕ
  pub expected_length : Option ℕ
  pub header_parsed : Bool
  pub parsed : Option PesHeader

abbrev pub new_pes : PesAssembler
new_pes = record { raw = []; expected_length = none; header_parsed = false; parsed = none }

-- A 33-bit timestamp in the five bytes of a list.
abbrev pub parse_timestamp : List ℕ → ℤ
parse_timestamp b = pos (
    get_or b 0 0 / 2 % 8 * 2 ^ 30
    + (get_or b 1 0 * 256 + get_or b 2 0) / 2 * 2 ^ 15
    + (get_or b 3 0 * 256 + get_or b 4 0) / 2)

-- One timestamp of the header, if its flag is set.
abbrev pub read_stamp : Bool → ByteCursor → Parsed (Option ℤ × ByteCursor)
read_stamp true c =
    ok_or (read_bytes c 5) need_more_data >>= λ r. ok (some (parse_timestamp r.0), r.1)
read_stamp false c = ok (none, c)

-- The timestamps that the flags announce, from the optional part of the header.
abbrev pub read_stamps : ℕ → ByteCursor → Parsed (Option ℤ × Option ℤ)
read_stamps pts_dts_flags c = read_stamp (leb 2 pts_dts_flags) c >>= λ pts.
    read_stamp (pts_dts_flags == 3) pts.1 >>= λ dts. ok (pts.0, dts.0)

abbrev pub starts_pes : List ℕ → Bool
starts_pes bytes = get_or bytes 0 0 == 0 && (get_or bytes 1 0 == 0 && get_or bytes 2 0 == 1)

abbrev pub finish_header : List ℕ → ℕ → ℕ → Parsed PesHeader
finish_header bytes flags2 header_data_length =
    if ltb (length bytes) (9 + header_data_length)
    then err need_more_data
    else (read_stamps (flags2 / 64 % 4) (new_bytes (take header_data_length (drop 9 bytes)))
        >>= λ stamps. ok record {
          stream_id = get_or bytes 3 0;
          packet_length = get_or bytes 4 0 * 256 + get_or bytes 5 0;
          pts = stamps.0;
          dts = stamps.1;
          header_size = 9 + header_data_length;
        })

unfoldable pub parse_pes_header : List ℕ → Parsed PesHeader
parse_pes_header bytes =
    if ltb (length bytes) 9
    then err need_more_data
    else if not (starts_pes bytes)
    then err (invalid_input 2103 (some "bad PES start code"))
    else (ok_or (read_u8 (new_bytes (drop 6 bytes))) need_more_data >>= λ flags1.
        if not (flags1.0 / 64 % 4 == 2)
        then err (invalid_input 2104 (some "PES marker bits invalid"))
        else (ok_or (read_u8 flags1.1) need_more_data >>= λ flags2.
            ok_or (read_u8 flags2.1) need_more_data >>= λ size.
            finish_header bytes flags2.0 size.0))

abbrev pub slice : ℕ → ℕ → List ℕ → List ℕ
slice first end bytes = drop first (take end bytes)

-- `flush_into`: what a packet without a known length has when the next one starts.
abbrev pub flush_with : PesAssembler → Option PesHeader → List PesOutput
flush_with a none = []
flush_with a (some h) =
    let end = min (unwrap_or a.expected_length (length a.raw)) (length a.raw) in
    if leb h.header_size end
    then record { header = h; payload = slice h.header_size end a.raw } ∷ []
    else []

pub flush : PesAssembler → List PesOutput
flush a = if a.header_parsed && ltb 0 (length a.raw) then flush_with a a.parsed else []

-- Output of the packet once the expected length is reached, and then a fresh assembler.
abbrev pub emit_when : PesAssembler → PesHeader → Option ℕ → PesAssembler × Parsed (List PesOutput)
emit_when a h none = (a, ok [])
emit_when a h (some n) =
    if leb n (length a.raw)
    then (new_pes, ok (record { header = h; payload = slice h.header_size n a.raw } ∷ []))
    else (a, ok [])

-- After the header of the packet was parsed; a failed parse leaves the assembler as it is.
abbrev pub begin_body : PesAssembler → Parsed PesHeader → PesAssembler × Parsed (List PesOutput)
begin_body a (err e) = (a, err e)
begin_body a (ok h) =
    let b = record a { parsed = some h; header_parsed = true } in
    if h.packet_length == 0
    then emit_when b h b.expected_length
    else if ltb (h.packet_length + 6) h.header_size
    then (b, err (invalid_input 2107 (some "PES packet length smaller than header")))
    else emit_when (record b { expected_length = some (h.packet_length + 6) }) h
        (some (h.packet_length + 6))

-- The body of a packet whose header was parsed by an earlier feed.
abbrev pub go_on : PesAssembler → Option PesHeader → PesAssembler × Parsed (List PesOutput)
go_on a (some h) = emit_when a h a.expected_length
go_on a none =
    if leb (unwrap_or a.expected_length (length a.raw + 1)) (length a.raw)
    then (a, err (invalid_input 2106 (some "PES header missing after parse")))
    else (a, ok [])

pub try_complete : PesAssembler → PesAssembler × Parsed (List PesOutput)
try_complete a =
    if not a.header_parsed
    then (if ltb (length a.raw) 9 then (a, ok []) else begin_body a (parse_pes_header a.raw))
    else go_on a a.parsed

-- The outputs of a feed that starts a packet come after those of the packet before it.
abbrev pub after :
    List PesOutput → PesAssembler × Parsed (List PesOutput) → PesAssembler × Parsed (List PesOutput)
after done (a, ok outputs) = (a, ok (done ++ outputs))
after done (a, err e) = (a, err e)

pub start_packet : PesAssembler → List ℕ → PesAssembler × Parsed (List PesOutput)
unfolding flush try_complete
start_packet a bytes =
    if ltb (length bytes) 3
    then (record new_pes { raw = bytes }, ok (flush a))
    else if not (starts_pes bytes)
    then (new_pes, err (invalid_input 2101 (some "PES missing start code")))
    else after (flush a) (try_complete (record new_pes { raw = bytes }))

pub feed : PesAssembler → List ℕ → Bool → PesAssembler × Parsed (List PesOutput)
unfolding start_packet try_complete
feed a bytes true = start_packet a bytes
feed a bytes false =
    if length a.raw == 0 && not a.header_parsed
    then (a, ok [])
    else if ltb max_pes_size (sat_add (length a.raw) (length bytes))
    then (new_pes, err (limit_exceeded "pes buffer"))
    else try_complete (record a { raw = a.raw ++ bytes })

abbrev pub media_time_from_pes : Option ℤ → Option ℤ → MediaTime
media_time_from_pes pts dts = record { pts = pts; dts = dts; duration = none; timebase = ts_90k }

abbrev pub is_video_stream : ℕ → Bool
is_video_stream id = leb 0xe0 id && leb id 0xef

abbrev pub is_audio_stream : ℕ → Bool
is_audio_stream id = (leb 0xc0 id && leb id 0xdf) || id == 0xbd
