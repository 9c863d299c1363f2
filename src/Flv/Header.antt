-- ===== src/Flv/Header.antt =====
-- crates/cheetah-container-flv/src/header.rs: the header of a file and of a tag. A byte is a number
-- below 256.
use cheetah_media_engine.Prelude.{
  ℕ, ◌+◌, ◌*◌, ◌/◌, ◌%◌, ◌^◌, Bool, List, [], ◌∷◌, length, Option, none, some, ltb, ◌==◌, not,
  if◌then◌else◌, ◌&&◌, false, min, ◌-◌,
}
use cheetah_media_engine.Bitstream.Bytes.{new_bytes, read_u8, read_bytes, read_u24_be, read_u32_be}
use cheetah_media_engine.Prelude.Int.{pos}
use cheetah_media_engine.Types.Format.{TrackKind, video, audio}
use cheetah_media_engine.Types.Time.{MediaTime, default_timebase}
use cheetah_media_engine.Flv.Error.{
  need_more_data, invalid_signature, malformed_header, malformed_tag, limit_exceeded, Parsed, ok,
  err, ◌>>=◌, or_error,
}

pub data TagType : Type 0 where
  audio_tag video_tag script_tag : TagType

abbrev pub tag_type_of : ℕ → Option TagType
tag_type_of value =
    if value == 8
    then some audio_tag
    else if value == 9
    then some video_tag
    else if value == 18
    then some script_tag
    else none

abbrev pub track_kind : TagType → Option TrackKind
track_kind audio_tag = some audio
track_kind video_tag = some video
track_kind script_tag = none

pub record FlvHeader : Type 0 where
  pub version : ℕ
  pub has_audio : Bool
  pub has_video : Bool
  pub header_size : ℕ

pub record FlvTagHeader : Type 0 where
  pub tag_type : TagType
  pub filter : Bool
  pub data_size : ℕ
  pub timestamp_ms : ℕ
  pub stream_id : ℕ

abbrev pub media_time : FlvTagHeader → MediaTime
media_time h = record {
  pts = some (pos h.timestamp_ms);
  dts = some (pos h.timestamp_ms);
  duration = none;
  timebase = default_timebase;
}

abbrev pub max_flv_header_size : ℕ
max_flv_header_size = 1024 * 1024

abbrev need {ℓ} : {A : Type ℓ} → Option A → Parsed A
need o = or_error need_more_data o

abbrev is_signature : List ℕ → Bool
is_signature (f ∷ l ∷ v ∷ []) = f == 0x46 && l == 0x4c && v == 0x56
is_signature _ = false

abbrev checked_header : ℕ → ℕ → ℕ → Parsed FlvHeader
checked_header version flags size =
    if ltb size 9
    then err malformed_header
    else if ltb max_flv_header_size size
    then err limit_exceeded
    else ok record {
      version = version;
      has_audio = flags / 4 % 2 == 1;
      has_video = flags % 2 == 1;
      header_size = size;
    }

unfoldable pub parse_file_header : List ℕ → Parsed FlvHeader
parse_file_header input =
    if ltb (length input) 9
    then err need_more_data
    else (need (read_bytes (new_bytes input) 3) >>= λ s.
        if not (is_signature s.0)
        then err invalid_signature
        else (need (read_u8 s.1) >>= λ v.
            need (read_u8 v.1) >>= λ f. need (read_u32_be f.1) >>= λ n. checked_header v.0 f.0 n.0))

unfoldable pub parse_tag_header : List ℕ → Parsed FlvTagHeader
parse_tag_header input =
    if ltb (length input) 11
    then err need_more_data
    else (need (read_u8 (new_bytes input)) >>= λ b.
        or_error malformed_tag (tag_type_of (b.0 % 32)) >>= λ t. need (read_u24_be b.1) >>= λ size.
        need (read_u24_be size.1) >>= λ lower. need (read_u8 lower.1) >>= λ extended.
        need (read_u24_be extended.1) >>= λ stream. ok record {
          tag_type = t;
          filter = b.0 / 32 % 2 == 1;
          data_size = size.0;
          timestamp_ms = extended.0 * 2 ^ 24 + lower.0;
          stream_id = stream.0;
        })

-- A u32.
abbrev pub tag_total_size : ℕ → ℕ
tag_total_size data_size = min (data_size + 11) (2 ^ 32 - 1)
