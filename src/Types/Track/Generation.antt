-- ===== src/Types/Track/Generation.antt =====
-- The generation of a track counts its changes of configuration.
use cheetah_media_engine.Prelude.{
  ◌≢◌, ◌⊎◌, inl, inr, ap, sym, ◌+◌, ◌<◌, ◌≡◌, arith, decide-yes, decide-no, u64_max,
}
use cheetah_media_engine.Types.Track.{
  TrackInfo, CodecConfig, CodecConfig-discrete, set_codec_config,
}

-- Below the u64 limit, setting the configuration that is in place changes nothing; setting another
-- one puts it in place, adds one to the generation, and changes nothing else.
pub set_codec_config_lem :
    (t : TrackInfo) (config : CodecConfig)
    → t.generation < u64_max
    → ((t.codec_config ≡ config) × (set_codec_config t config ≡ t))
      ⊎ ((t.codec_config ≢ config)
          × (set_codec_config t config
              ≡ record t { codec_config = config; generation = t.generation + 1 }))
unfolding set_codec_config
set_codec_config_lem t config h = elim (CodecConfig-discrete t.codec_config config) [
  | yes p ↦
      rw (decide-yes (CodecConfig-discrete t.codec_config config) p)
        (inl (p, ap (λ c. record t { codec_config = c }) (sym p)))
  | no p ↦
      rw (decide-no (CodecConfig-discrete t.codec_config config) p)
        (inr (p, ap (λ n. record t { codec_config = config; generation = n }) (omega arith)))
]
