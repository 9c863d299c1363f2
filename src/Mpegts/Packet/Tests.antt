-- ===== src/Mpegts/Packet/Tests.antt =====
-- Tests of the packet header.
use cheetah_media_engine.Prelude.{◌+◌, ◌*◌, ◌≡◌, refl, true, false, [], ◌∷◌, replicate, arith}
use cheetah_media_engine.Mpegts.Error.{ok, err, lost_sync, packet_too_short}
use cheetah_media_engine.Mpegts.Packet.{parse, payload}
use cheetah_media_engine.Mpegts.Packet.Header.{clock_packet, clock_packet_bytes, parse-clock_packet}

parse-clock_packet_example :
    (parse (clock_packet_bytes false true true false 256 5 1000000 17 (replicate 176 255))
      ≡ ok (clock_packet false true true false 256 5 (1000000 * 300 + 17)))
    × (payload
          (clock_packet false true true false 256 5 (1000000 * 300 + 17))
          (clock_packet_bytes false true true false 256 5 1000000 17 (replicate 176 255))
        ≡ replicate 176 255)
parse-clock_packet_example =
    parse-clock_packet false true true false 256 5 1000000 17 (replicate 176 255) (omega arith)
      (omega arith) (omega arith) (omega arith) refl

parse_short : parse (0x47 ∷ []) ≡ err packet_too_short
unfolding parse
parse_short = refl

parse_unsynced : parse (replicate 188 0) ≡ err lost_sync
unfolding parse
parse_unsynced = refl
