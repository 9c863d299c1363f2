-- ===== src/Types/Track.antt =====
-- crates/cheetah-media-types/src/track.rs: identifiers, epochs and track descriptors.
pub mod Generation
mod Tests
use cheetah_media_engine.Prelude.{
  ℕ, String, String-discrete, Bool, true, false, not, List, Option, none, some, sat_add, ◌==◌,
  if◌then◌else◌,
}
use cheetah_media_engine.Types.Error.{MediaError, invalid_input}
use cheetah_media_engine.Types.Format.{
  CodecId, TrackKind, video, audio, VideoFormat, AudioFormat, VideoFormat-discrete,
  AudioFormat-discrete,
}
use cheetah_media_engine.Types.Time.{TimeBase}
use mathlib.Core.Bool.{decide}
use native.Mathlib.Decide.{ℕ_discrete}

abbrev pub TrackId : Type 0
TrackId = ℕ

new_track_id : ℕ → Option TrackId
new_track_id id = if id == 0 then none else some id

abbrev pub StreamEpoch : Type 0
StreamEpoch = ℕ

unfoldable pub next_epoch : StreamEpoch → StreamEpoch
next_epoch e = sat_add e 1

abbrev pub SequenceNumber : Type 0
SequenceNumber = ℕ

next_sequence : SequenceNumber → SequenceNumber
next_sequence n = sat_add n 1

pub data CodecConfig : Type 0 where
  no_config : CodecConfig
  avcc hevcc aac_audio_specific_config opus_header : List ℕ → CodecConfig
  raw : String → List ℕ → CodecConfig

pub CodecConfig-discrete : Discrete CodecConfig
CodecConfig-discrete = hlevel (ℕ_discrete, String-discrete)

config_bytes : CodecConfig → Option (List ℕ)
config_bytes no_config = none
config_bytes (avcc v) = some v
config_bytes (hevcc v) = some v
config_bytes (aac_audio_specific_config v) = some v
config_bytes (opus_header v) = some v
config_bytes (raw f v) = some v

-- `self == other`, of configurations.
abbrev same_config : CodecConfig → CodecConfig → Bool
same_config a b = decide (CodecConfig-discrete a b)

generation_delta : CodecConfig → CodecConfig → ℕ
generation_delta a b = if same_config a b then 0 else 1

pub record TrackInfo : Type 0 where
  pub id : TrackId
  pub kind : TrackKind
  pub codec : CodecId
  pub timebase : TimeBase
  pub codec_config : CodecConfig
  pub video_format : Option VideoFormat
  pub audio_format : Option AudioFormat
  pub generation : ℕ

pub new_track : TrackId → TrackKind → CodecId → TimeBase → TrackInfo
new_track i k c t = record {
  id = i;
  kind = k;
  codec = c;
  timebase = t;
  codec_config = no_config;
  video_format = none;
  audio_format = none;
  generation = 0;
}

pub set_codec_config : TrackInfo → CodecConfig → TrackInfo
set_codec_config t config = record t {
  codec_config = config;
  generation = if same_config t.codec_config config then t.generation else sat_add t.generation 1;
}

abbrev same_video : Option VideoFormat → VideoFormat → Bool
same_video none f = false
same_video (some g) f = decide (VideoFormat-discrete g f)

abbrev same_audio : Option AudioFormat → AudioFormat → Bool
same_audio none f = false
same_audio (some g) f = decide (AudioFormat-discrete g f)

-- The track as it is left, and the error returned, if any.
set_video_format : TrackInfo → VideoFormat → TrackInfo × Option MediaError
set_video_format t format = elim t.kind [
  | video ↦ (
    record t {
      video_format = some format;
      generation =
          if same_video t.video_format format then t.generation else sat_add t.generation 1;
    },
    none,
  )
  | _ ↦ (t, some (invalid_input 1002 (some "video_format on non-video track")))
]

set_audio_format : TrackInfo → AudioFormat → TrackInfo × Option MediaError
set_audio_format t format = elim t.kind [
  | audio ↦ (
    record t {
      audio_format = some format;
      generation =
          if same_audio t.audio_format format then t.generation else sat_add t.generation 1;
    },
    none,
  )
  | _ ↦ (t, some (invalid_input 1003 (some "audio_format on non-audio track")))
]
