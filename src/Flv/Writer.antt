-- ===== src/Flv/Writer.antt =====
-- crates/cheetah-container-flv/src/muxer.rs: how the multiplexer writes the file header and a tag.
-- Of its fields only those are kept that the writing reads or changes.
pub mod ReadBack
mod Tests
use cheetah_media_engine.Prelude.{
  ℕ, ◌+◌, ◌*◌, ◌/◌, ◌%◌, ◌^◌, Bool, true, false, List, [], ◌∷◌, ◌++◌, length, Option, some, none,
  ltb, if◌then◌else◌, u64_max,
}
use cheetah_media_engine.Prelude.Int.{ℤ, pos, negsuc}
use cheetah_media_engine.Bitstream.Bytes.Integers.{bytes_of}
use cheetah_media_engine.Flv.Error.{FlvError, limit_exceeded, invalid_timestamp, Parsed, ok, err}
use cheetah_media_engine.Flv.Header.{TagType, audio_tag, video_tag, script_tag, tag_total_size}

-- A time beyond 32 bits wraps.
unfoldable pub dts_to_timestamp : ℤ → Parsed ℕ
dts_to_timestamp (pos n) = ok (n % 2 ^ 32)
dts_to_timestamp (negsuc n) = err invalid_timestamp

pub record FlvMuxer : Type 0 where
  pub file_mode : Bool
  pub output : List ℕ
  pub has_audio : Bool
  pub has_video : Bool
  pub header_written : Bool
  pub previous_tag_size : ℕ

abbrev pub new_muxer : Bool → FlvMuxer
new_muxer mode = record {
  file_mode = mode;
  output = [];
  has_audio = false;
  has_video = false;
  header_written = false;
  previous_tag_size = 0;
}

abbrev pub as_flag : Bool → ℕ → ℕ
as_flag true n = n
as_flag false n = 0

abbrev pub track_flags : FlvMuxer → ℕ
track_flags m = as_flag m.has_audio 4 + as_flag m.has_video 1

-- The size of the tag before, in file mode.
abbrev pub size_bytes : Bool → ℕ → List ℕ
size_bytes true n = bytes_of 4 n
size_bytes false n = []

abbrev pub file_header_bytes : FlvMuxer → List ℕ
file_header_bytes m = 0x46 ∷ 0x4c ∷ 0x56 ∷ 1 ∷ track_flags m ∷ bytes_of 4 9

unfoldable pub write_header : FlvMuxer → FlvMuxer
write_header m = if m.header_written then m else record m {
  output = m.output ++ file_header_bytes m ++ size_bytes m.file_mode 0;
  header_written = true;
}

abbrev pub type_byte : TagType → ℕ
type_byte audio_tag = 8
type_byte video_tag = 9
type_byte script_tag = 18

-- The eleven bytes of a tag's header.
abbrev pub tag_header_bytes : TagType → ℕ → ℕ → List ℕ
tag_header_bytes t data_size timestamp =
    (type_byte t ∷ bytes_of 3 data_size)
    ++ bytes_of 3 (timestamp % 2 ^ 24)
    ++ (timestamp / 2 ^ 24 % 256 ∷ bytes_of 3 0)

abbrev pub write_tag_header : FlvMuxer → TagType → ℕ → ℕ → FlvMuxer
write_tag_header m t data_size timestamp = record m {
  output = m.output ++ tag_header_bytes t data_size timestamp;
}

abbrev pub write_body : FlvMuxer → List ℕ → ℕ → FlvMuxer
write_body m body total = record m {
  output = m.output ++ body ++ size_bytes m.file_mode total;
  previous_tag_size = total;
}

unfoldable pub write_tag : FlvMuxer → TagType → ℕ → List ℕ → Parsed FlvMuxer
write_tag m t timestamp body =
    if ltb 0x00ffffff (length body)
    then err limit_exceeded
    else ok (
        write_body (write_tag_header m t (length body) timestamp) body
          (tag_total_size (length body)))
