-- ===== src/Types/Limits.antt =====
-- crates/cheetah-media-types/src/limits.rs: the limits on what is parsed, buffered and rendered.
use cheetah_media_engine.Prelude.{ℕ, ◌*◌, String, ◌||◌, ltb, if◌then◌else◌}
use cheetah_media_engine.Types.Error.{resource_limit, Result, ok, err}

pub record MediaLimits : Type 0 where
  pub max_tracks : ℕ
  pub max_box_tag_pes_size : ℕ
  pub max_parameter_sets : ℕ
  pub max_width : ℕ
  pub max_height : ℕ
  pub max_frame_size_bytes : ℕ
  pub max_cache_duration_ms : ℕ
  pub max_queue_depth : ℕ
  pub max_read_chunk_bytes : ℕ

abbrev pub default_media_limits : MediaLimits
default_media_limits = record {
  max_tracks = 16;
  max_box_tag_pes_size = 16 * 1024 * 1024;
  max_parameter_sets = 64;
  max_width = 7680;
  max_height = 4320;
  max_frame_size_bytes = 128 * 1024 * 1024;
  max_cache_duration_ms = 30000;
  max_queue_depth = 256;
  max_read_chunk_bytes = 1024 * 1024;
}

-- The error of a value above its limit.
abbrev pub at_most : String → ℕ → ℕ → Result (Unit {0})
at_most name value limit = if ltb limit value then err (resource_limit name value limit) else ok tt

unfoldable pub check_u64 : MediaLimits → String → ℕ → ℕ → ℕ → Result (Unit {0})
check_u64 m name value min max =
    if ltb value min || ltb max value then err (resource_limit name value max) else ok tt

unfoldable pub check_track_count : MediaLimits → ℕ → Result (Unit {0})
check_track_count m n = at_most "track_count" n m.max_tracks

unfoldable pub check_chunk_size : MediaLimits → ℕ → Result (Unit {0})
check_chunk_size m size = at_most "box_tag_pes_size" size m.max_box_tag_pes_size

unfoldable pub check_resolution : MediaLimits → ℕ → ℕ → Result (Unit {0})
check_resolution m width height =
    if ltb m.max_width width
    then err (resource_limit "resolution_width" width m.max_width)
    else at_most "resolution_height" height m.max_height

unfoldable pub check_queue_depth : MediaLimits → ℕ → Result (Unit {0})
check_queue_depth m depth = at_most "queue_depth" depth m.max_queue_depth

unfoldable pub check_read_chunk : MediaLimits → ℕ → Result (Unit {0})
check_read_chunk m bytes = at_most "read_chunk_bytes" bytes m.max_read_chunk_bytes
