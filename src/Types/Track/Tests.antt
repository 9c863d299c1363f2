-- ===== src/Types/Track/Tests.antt =====
-- The theorem on track generations at a concrete track.
use cheetah_media_engine.Prelude.{none, [], ◌∷◌}
use cheetah_media_engine.Types.Format.{audio, aac}
use cheetah_media_engine.Types.Time.{ts_90k}
use cheetah_media_engine.Types.Track.{TrackInfo, CodecConfig, no_config, aac_audio_specific_config}

abbrev sound : TrackInfo
sound = record {
  id = 2;
  kind = audio;
  codec = aac;
  timebase = ts_90k;
  codec_config = no_config;
  video_format = none;
  audio_format = none;
  generation = 5;
}

abbrev header : CodecConfig
header = aac_audio_specific_config (18 ∷ 16 ∷ [])
