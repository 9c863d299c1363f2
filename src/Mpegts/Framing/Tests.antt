-- ===== src/Mpegts/Framing/Tests.antt =====
-- Tests of the framing.
use cheetah_media_engine.Prelude.{
  suc, ◌≡◌, refl, true, false, ◌∷◌, some, take, drop, replicate, sat_add, arith,
}
use cheetah_media_engine.Mpegts.Error.{ok}
use cheetah_media_engine.Mpegts.Packet.{payload}
use cheetah_media_engine.Mpegts.Packet.Header.{clock_packet, clock_packet_bytes, parse-clock_packet}
use cheetah_media_engine.Mpegts.Framing.{TsDemuxer, new_demuxer, parse_packet, parse_loop}
use cheetah_media_engine.Mpegts.Framing.Resync.{parse_packet-parse_loop}
use cheetah_media_engine.Mpegts.Framing.Stream.{pending, parse_packet-Cuts}

abbrev unsynced : TsDemuxer
unsynced = record new_demuxer { buffer = 0 ∷ replicate 400 0x47 }

abbrev one_packet : TsDemuxer
one_packet = record new_demuxer {
  buffer = clock_packet_bytes false true true false 256 5 1000000 17 (replicate 176 255);
}

parse_packet-parse_loop_example : parse_loop (suc (suc 3)) unsynced ≡ parse_packet unsynced
parse_packet-parse_loop_example = parse_packet-parse_loop 3 unsynced (omega arith)

parse_packet-Cuts_example :
    (c : TsDemuxer) × (parse_packet one_packet ≡ (
      c,
      ok (
          some (
            clock_packet false true true false 256 5 300000017,
            payload
                (clock_packet false true true false 256 5 300000017)
                (take 188 (pending one_packet)),
          )),
    ))
    × (pending c ≡ drop 188 (pending one_packet))
    × (c.packets_processed ≡ sat_add one_packet.packets_processed 1)
    × (c.sync_losses ≡ one_packet.sync_losses)
parse_packet-Cuts_example =
    parse_packet-Cuts one_packet (clock_packet false true true false 256 5 300000017) (omega arith)
      (omega arith)
      (parse-clock_packet false true true false 256 5 1000000 17 (replicate 176 255) (omega arith)
        (omega arith) (omega arith) (omega arith) refl).0
