-- ===== src/Mpegts/Clock/Tests.antt =====
-- Tests of the transport clock.
use cheetah_media_engine.Prelude.{◌≡◌, refl, inr, none, some, arith}
use cheetah_media_engine.Mpegts.Clock.{PcrClock, new_clock, feed, pcr_to_ms}
use cheetah_media_engine.Mpegts.Clock.Jitter.{IsUntimed, feed-IsUntimed}

abbrev fed_once : PcrClock
fed_once = record new_clock {
  last_reference = some 1000000;
  last_arrival_ms = some 37;
  sample_count = 1;
}

feed-IsUntimed_example : IsUntimed (feed fed_once 2000000 none)
feed-IsUntimed_example =
    feed-IsUntimed fed_once 2000000 (omega arith, inr (1000000, refl, refl)) (omega arith)
      (omega arith)

pcr_to_ms_rounds : pcr_to_ms 1000000 ≡ 37
pcr_to_ms_rounds = refl
