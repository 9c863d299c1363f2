-- ===== src/Mpegts/Framing.antt =====
-- crates/cheetah-container-mpegts/src/demuxer.rs: the demuxer's buffer, from which packets are
-- cut and in which a lost sync byte is searched.
pub mod Stream
pub mod Resync
mod Tests
use cheetah_media_engine.Prelude.{
  ℕ, zero, suc, ◌+◌, ◌-◌, ◌*◌, min, Bool, true, false, not, ◌&&◌, ◌||◌, List, [], ◌∷◌, ◌++◌, length,
  get_or, take, drop, Option, none, some, sat_add, ltb, leb, ◌==◌, if◌then◌else◌,
}
use cheetah_media_engine.Mpegts.Error.{
  TsError, packet_too_short, lost_sync, need_more_data, invalid_input, limit_exceeded, unsupported,
  Parsed, ok, err,
}
use cheetah_media_engine.Mpegts.Packet.{TsPacket, parse, payload}

abbrev pub max_sync_scan : ℕ
max_sync_scan = 188 * 8

abbrev pub max_buffer : ℕ
max_buffer = 64 * 1024 * 1024

-- The fields of the demuxer that the functions below use, its diagnostics among them.
pub record TsDemuxer : Type 0 where
  pub buffer : List ℕ
  pub read_pos : ℕ
  pub packets_processed : ℕ
  pub sync_losses : ℕ
  pub error : Option TsError

abbrev pub new_demuxer : TsDemuxer
new_demuxer = record {
  buffer = [];
  read_pos = 0;
  packets_processed = 0;
  sync_losses = 0;
  error = none;
}

abbrev pub has_error : TsDemuxer → Bool
has_error d = elim d.error [ none ↦ false | some e ↦ true ]

pub push : TsDemuxer → List ℕ → TsDemuxer
push d bytes =
    if length bytes == 0 || has_error d
    then d
    else if ltb max_buffer (sat_add (length d.buffer) (length bytes))
    then record d { error = some (limit_exceeded "demuxer buffer") }
    else record d { buffer = d.buffer ++ bytes }

abbrev pub is_sync : List ℕ → ℕ → Bool
is_sync buffer i =
    get_or buffer i 0 == 0x47
    && (leb (length buffer) (i + 188) || get_or buffer (i + 188) 0 == 0x47)

-- The first of `count` positions from `i` on where a packet may start.
pub scan : List ℕ → ℕ → ℕ → Option ℕ
scan buffer zero i = none
scan buffer (suc count) i =
    let later = scan buffer count (i + 1) in if is_sync buffer i then some i else later

abbrev pub found : TsDemuxer → Option ℕ → TsDemuxer × Parsed Bool
found d (some i) = (record d { sync_losses = sat_add d.sync_losses 1; read_pos = i }, ok true)
found d none =
    if ltb max_sync_scan (length d.buffer - d.read_pos)
    then (
      record d { buffer = drop (length d.buffer - max_sync_scan) d.buffer; read_pos = 0 },
      err lost_sync,
    )
    else (d, ok false)

-- The scan covers the positions after `read_pos` from which 188 bytes remain in its window.
pub resync : TsDemuxer → TsDemuxer × Parsed Bool
unfolding scan
resync d =
    let scan_end = min (sat_add d.read_pos max_sync_scan) (length d.buffer) in
    if ltb (scan_end - d.read_pos) 188
    then (d, ok false)
    else found d (scan d.buffer (scan_end - 188 - d.read_pos) (d.read_pos + 1))

abbrev pub shrink : TsDemuxer → TsDemuxer
shrink d =
    if ltb 4096 d.read_pos then record d { buffer = drop d.read_pos d.buffer; read_pos = 0 } else d

abbrev pub take_packet : TsDemuxer → TsPacket → TsDemuxer × Parsed (Option (TsPacket × List ℕ))
take_packet d p = (
  shrink
      (record d { read_pos = d.read_pos + 188; packets_processed = sat_add d.packets_processed 1 }),
  ok (some (p, payload p (take 188 (drop d.read_pos d.buffer)))),
)

abbrev pub after_resync :
    TsDemuxer × Parsed Bool
    → (TsDemuxer → TsDemuxer × Parsed (Option (TsPacket × List ℕ)))
    → TsDemuxer × Parsed (Option (TsPacket × List ℕ))
after_resync (d, ok true) again = again d
after_resync (d, ok false) again = (d, ok none)
after_resync (d, err e) again = (d, err e)

abbrev pub on_parsed :
    TsDemuxer
    → Parsed TsPacket
    → (TsDemuxer → TsDemuxer × Parsed (Option (TsPacket × List ℕ)))
    → TsDemuxer × Parsed (Option (TsPacket × List ℕ))
on_parsed d (ok p) again = take_packet d p
on_parsed d (err lost_sync) again = after_resync (resync d) again
on_parsed d (err packet_too_short) again = after_resync (resync d) again
on_parsed d (err need_more_data) again = (d, err need_more_data)
on_parsed d (err (invalid_input c m)) again = (d, err (invalid_input c m))
on_parsed d (err (limit_exceeded l)) again = (d, err (limit_exceeded l))
on_parsed d (err (unsupported c m)) again = (d, err (unsupported c m))

-- The loop of `parse_packet`, on fuel: the packet after a resynchronisation parses, so two
-- rounds are enough.
pub parse_loop : ℕ → TsDemuxer → TsDemuxer × Parsed (Option (TsPacket × List ℕ))
unfolding resync parse
parse_loop zero d = (d, ok none)
parse_loop (suc fuel) d =
    if ltb (length d.buffer) (sat_add d.read_pos 188)
    then (d, ok none)
    else on_parsed d (parse (drop d.read_pos d.buffer)) (parse_loop fuel)

pub parse_packet : TsDemuxer → TsDemuxer × Parsed (Option (TsPacket × List ℕ))
parse_packet d = parse_loop 2 d
