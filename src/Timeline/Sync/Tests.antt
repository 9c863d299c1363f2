-- ===== src/Timeline/Sync/Tests.antt =====
-- Tests of the synchroniser.
use cheetah_media_engine.Prelude.{◌≡◌, refl, true, false, none, some}
use cheetah_media_engine.Prelude.Int.{pos, ◌+ℤ◌, ◌-ℤ◌}
use cheetah_media_engine.Types.Time.{MediaTime, rescale_i64, checked_add}
use cheetah_media_engine.Timeline.Clock.{
  MediaClock, new_clock, internal_timebase, update, ok, recorded, epoch_state, insert_epoch,
}
use cheetah_media_engine.Timeline.Sync.{AvSync, SyncDecision, new_sync, feed_video, presented_ms}
use cheetah_media_engine.Timeline.Sync.Decision.{IsFair, frame_drift, feed_video-IsFair}

abbrev frame_time : MediaTime
frame_time = record {
  pts = some (pos 2000000);
  dts = none;
  duration = none;
  timebase = internal_timebase;
}

-- Audio plays at one second, and a frame may be 50 ms ahead of it.
abbrev playing_audio : AvSync
playing_audio = record (new_sync (pos 50) (pos 100)) {
  audio_available = true;
  last_audio_ms = some (pos 1000);
}

abbrev clock_after : MediaClock
clock_after =
    recorded playing_audio.clock 0 none (pos 2000000) (pos 2000000) false (pos 0, pos 2000000)

feed_video-IsFair_example :
    (r : AvSync × SyncDecision) × (feed_video playing_audio frame_time false 0 ≡ ok r)
    × IsFair playing_audio
        (frame_drift playing_audio (presented_ms frame_time (pos 2000000)))
        (pos 2000000)
        false
        r.1
unfolding update rescale_i64 epoch_state checked_add ◌-ℤ◌ ◌+ℤ◌ new_clock new_sync insert_epoch
feed_video-IsFair_example =
    feed_video-IsFair playing_audio frame_time false 0 clock_after (pos 2000000) refl
