-- ===== src/Timeline/Sync.antt =====
-- crates/cheetah-media-timeline/src/sync.rs: what is rendered, held or dropped to keep video with
-- the audio clock.
pub mod Decision
mod Tests
use cheetah_media_engine.Prelude.{
  ℕ, String, Bool, true, false, ◌&&◌, Option, none, some, unwrap_or, if◌then◌else◌,
}
use cheetah_media_engine.Prelude.Int.{ℤ, pos, ◌-ℤ◌, ltb_ℤ, sat_sub_i64}
use cheetah_media_engine.Types.Time.{MediaTime, pts_ms, dts_ms}
use cheetah_media_engine.Types.Track.{StreamEpoch}
use cheetah_media_engine.Timeline.Clock.{
  MediaClock, new_clock, update, Timed, ok, err, ◌>>=◌, clock_ms, sat_abs, catch_up, ended,
  set_state, add_dropped,
}

pub data SyncDecision : Type 0 where
  render : ℤ → SyncDecision
  drop_frame : String → SyncDecision
  hold : ℤ → SyncDecision

pub record AvSync : Type 0 where
  pub clock : MediaClock
  pub audio_available : Bool
  pub last_audio_ms : Option ℤ
  pub last_audio_clock : Option ℤ
  pub last_video_ms : Option ℤ
  pub max_drift_ms : ℤ
  pub late_threshold_ms : ℤ
  pub max_observed_drift_ms : ℤ

unfoldable pub new_sync : ℤ → ℤ → AvSync
new_sync max_drift late_threshold = record {
  clock = new_clock none none;
  audio_available = false;
  last_audio_ms = none;
  last_audio_clock = none;
  last_video_ms = none;
  max_drift_ms = max_drift;
  late_threshold_ms = late_threshold;
  max_observed_drift_ms = pos 0;
}

-- The presentation time of a sample, by its own timestamps where they can be had.
abbrev pub presented_ms : MediaTime → ℤ → ℤ
presented_ms time render_time =
    unwrap_or (pts_ms time) (unwrap_or (dts_ms time) (clock_ms render_time))

abbrev pub heard : AvSync → MediaTime → Timed (MediaClock × ℤ) → AvSync
heard s time (ok (clock, render_time)) = record s {
  clock = clock;
  audio_available = true;
  last_audio_ms = some (presented_ms time render_time);
  last_audio_clock = some render_time;
}
heard s time (err e) = s

-- An audio sample that the clock refuses changes nothing; its duration is not used.
unfoldable pub feed_audio : AvSync → MediaTime → ℤ → StreamEpoch → AvSync
feed_audio s time duration_ms epoch = heard s time (update s.clock time epoch)

abbrev pub drift_of : AvSync → ℤ → ℤ
drift_of s video_ms = sat_sub_i64 video_ms (unwrap_or s.last_audio_ms video_ms)

abbrev pub seen : AvSync → MediaClock → ℤ → AvSync
seen s clock video_ms =
    let drift_abs = sat_abs (drift_of s video_ms) in
    record s {
      clock = clock;
      last_video_ms = some video_ms;
      max_observed_drift_ms =
          if ltb_ℤ s.max_observed_drift_ms drift_abs then drift_abs else s.max_observed_drift_ms;
    }

abbrev pub catching_up : AvSync → AvSync
catching_up s = record s { clock = set_state s.clock catch_up }

abbrev pub dropping : AvSync → ℤ → AvSync
dropping s ms = record s { clock = add_dropped (set_state s.clock catch_up) ms }

abbrev pub is_ahead : AvSync → ℤ → Bool
is_ahead s drift = s.audio_available && ltb_ℤ s.max_drift_ms drift

abbrev pub is_late : AvSync → ℤ → Bool
is_late s drift = s.audio_available && ltb_ℤ drift (pos 0 -ℤ s.late_threshold_ms)

abbrev pub min_ℤ : ℤ → ℤ → ℤ
min_ℤ a b = if ltb_ℤ b a then b else a

abbrev pub choose : AvSync → ℤ → ℤ → Bool → AvSync × SyncDecision
choose s drift render_time is_keyframe =
    if is_ahead s drift
    then if is_keyframe
      then (catching_up s, hold (unwrap_or s.last_audio_clock render_time))
      else (dropping s drift, drop_frame "video too far ahead, dropping non-reference frame")
    else if is_late s drift
    then if is_keyframe then (catching_up s, render render_time) else (
      dropping s (min_ℤ (sat_abs drift) s.late_threshold_ms),
      drop_frame "video late, dropping non-reference frame",
    )
    else (s, render render_time)

unfoldable pub feed_video : AvSync → MediaTime → Bool → StreamEpoch → Timed (AvSync × SyncDecision)
feed_video s time is_keyframe epoch = update s.clock time epoch >>= λ r.
    let video_ms = presented_ms time r.1 in
    ok (choose (seen s r.0 video_ms) (drift_of s video_ms) r.1 is_keyframe)

abbrev pub set_ended : AvSync → AvSync
set_ended s = record s { clock = set_state s.clock ended }
