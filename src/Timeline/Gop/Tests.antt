-- ===== src/Timeline/Gop/Tests.antt =====
-- The theorems on the cache at concrete packets.
use cheetah_media_engine.Prelude.{ℕ, arith, [], ◌∷◌, none, some}
use cheetah_media_engine.Prelude.Int.{pos}
use cheetah_media_engine.Types.Time.{MediaTime, default_timebase}
use cheetah_media_engine.Types.Packet.{MediaPacket, new_packet, with_keyframe}
use cheetah_media_engine.Timeline.Gop.{
  Gop, GopCache, GopLimits, new_cache, default_limits, feed, usable, random_access,
}
use cheetah_media_engine.Timeline.Gop.Trim.{IsCache}
use cheetah_media_engine.Timeline.Gop.Cache.{feed-IsCache}
use cheetah_media_engine.Timeline.Gop.Access.{Finds, random_access-Finds}

abbrev time_at : ℕ → MediaTime
time_at ms = record {
  pts = some (pos ms);
  dts = none;
  duration = none;
  timebase = default_timebase;
}

abbrev keyframe_at : ℕ → MediaPacket
keyframe_at ms = with_keyframe (new_packet (1 ∷ 2 ∷ 3 ∷ []) 1 1 ms (time_at ms))

-- Room for two groups of three bytes.
abbrev small : GopLimits
small = record { max_bytes = 7; max_frames = 10; max_duration_ms = 1000 }

new_cache-IsCache : IsCache (new_cache small)
new_cache-IsCache = record {
  within = (omega arith, omega arith, omega arith);
  finalized = tt;
  active = tt;
}

feed-IsCache_example : IsCache (feed (new_cache small) (keyframe_at 40) 1)
feed-IsCache_example = feed-IsCache (new_cache small) (keyframe_at 40) 1 new_cache-IsCache

abbrev group_at : ℕ → Gop
group_at ms = record {
  epoch = 1;
  config_generation = 1;
  start_ms = some (pos ms);
  end_ms = some (pos ms);
  packets = keyframe_at ms ∷ [];
  bytes = 3;
  frames = 1;
  duration_ms = 0;
}

-- Two finalized groups and a current one that all start before 100.
abbrev three_groups : GopCache
three_groups = record {
  gops = group_at 0 ∷ group_at 40 ∷ [];
  current = some (group_at 80);
  current_config_generation = 1;
  limits = default_limits;
}

random_access-Finds_example :
    Finds
      (usable 1 (pos 100))
      three_groups.gops
      three_groups.current
      (random_access three_groups (pos 100))
random_access-Finds_example = random_access-Finds three_groups (pos 100)
