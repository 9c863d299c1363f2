-- ===== src/Flv/Writer/ReadBack.antt =====
-- What the multiplexer writes is read back by the parsers of the headers.
use cheetah_media_engine.Prelude.{
  ℕ, ◌+◌, ◌*◌, ◌/◌, ◌%◌, ◌^◌, ◌<◌, ◌≡◌, refl, ap, ◌∙◌, Bool, true, false, List, ◌∷◌, ◌++◌, length,
  some, arith, append_assoc, length-append, take-exact, drop-exact, take, drop, ltb, ◌==◌,
}
use cheetah_media_engine.Bitstream.Bytes.Integers.{bytes_of}
use cheetah_media_engine.Flv.Error.{ok}
use cheetah_media_engine.Flv.Header.{
  TagType, audio_tag, video_tag, script_tag, FlvTagHeader, tag_type_of, parse_tag_header,
  tag_total_size, parse_file_header,
}
use cheetah_media_engine.Flv.Writer.{
  FlvMuxer, write_tag, as_flag, tag_header_bytes, type_byte, size_bytes, write_header,
  file_header_bytes,
}

abbrev pub plain_tag : TagType → ℕ → ℕ → FlvTagHeader
plain_tag t size timestamp = record {
  tag_type = t;
  filter = false;
  data_size = size;
  timestamp_ms = timestamp;
  stream_id = 0;
}

three_bytes :
    (x : ℕ)
    → x < 2 ^ 24
    → ((0 * 256 + x / 256 ^ 2 % 256) * 256 + x / 256 ^ 1 % 256) * 256 + x / 256 ^ 0 % 256 ≡ x
three_bytes x h = omega arith

whole_time : (x : ℕ) → x < 2 ^ 32 → x / 2 ^ 24 % 256 * 2 ^ 24 + x % 2 ^ 24 ≡ x
whole_time x h = omega arith

tag_type_of-type_byte : (t : TagType) → tag_type_of (type_byte t % 32) ≡ some t
tag_type_of-type_byte audio_tag = refl
tag_type_of-type_byte video_tag = refl
tag_type_of-type_byte script_tag = refl

no_filter : (t : TagType) → (type_byte t / 32 % 2 == 1) ≡ false
no_filter audio_tag = refl
no_filter video_tag = refl
no_filter script_tag = refl

long_enough : (xs ys : List ℕ) → ltb (length (xs ++ ys)) (length xs) ≡ false
long_enough xs ys = ground (arith, length-append xs ys)

pub parse_tag_header-bytes :
    (t : TagType) (size timestamp : ℕ) (rest : List ℕ)
    → size < 2 ^ 24
    → timestamp < 2 ^ 32
    → parse_tag_header (tag_header_bytes t size timestamp ++ rest) ≡ ok (plain_tag t size timestamp)
unfolding parse_tag_header
parse_tag_header-bytes t size timestamp rest h k =
    rw
      (
        long_enough (tag_header_bytes t size timestamp) rest,
        long_enough (bytes_of 3 size)
            (bytes_of 3 (timestamp % 2 ^ 24) ++ (timestamp / 2 ^ 24 % 256 ∷ bytes_of 3 0) ++ rest),
        long_enough (bytes_of 3 (timestamp % 2 ^ 24))
            ((timestamp / 2 ^ 24 % 256 ∷ bytes_of 3 0) ++ rest),
        long_enough (bytes_of 3 0) rest,
        tag_type_of-type_byte t,
        no_filter t,
        three_bytes size h,
        three_bytes (timestamp % 2 ^ 24) (omega arith),
        whole_time timestamp k,
      )
      refl

-- A body of less than 2^24 bytes is appended with its header, as one tag that the parser of tag
-- headers reads back: its type, its size and its time of 32 bits; the body follows the header, and
-- in file mode the size of the whole tag follows the body.
pub write_tag-IsRead :
    (m : FlvMuxer) (t : TagType) (timestamp : ℕ) (body : List ℕ)
    → timestamp < 2 ^ 32
    → length body < 2 ^ 24
    → (tag : List ℕ) × (write_tag m t timestamp body
        ≡ ok (record m { output = m.output ++ tag; previous_tag_size = length body + 11 }))
      × (parse_tag_header tag ≡ ok (plain_tag t (length body) timestamp))
      × (take (length body) (drop 11 tag) ≡ body)
      × (drop (length body) (drop 11 tag) ≡ size_bytes m.file_mode (length body + 11))
unfolding write_tag
write_tag-IsRead m t timestamp body h k =
    let rest = body ++ size_bytes m.file_mode (length body + 11) in
    let small : ltb 0x00ffffff (length body) ≡ false = ground arith in
    let total : tag_total_size (length body) ≡ length body + 11 = omega arith in
    let head = tag_header_bytes t (length body) timestamp in
    let end = size_bytes m.file_mode (length body + 11) in
    let assoc =
      append_assoc (m.output ++ head) body end ∙ append_assoc m.output head (body ++ end) in
    (
      tag_header_bytes t (length body) timestamp ++ rest,
      rw (small, total)
          (ap (λ o. ok (record m { output = o; previous_tag_size = length body + 11 })) assoc),
      parse_tag_header-bytes t (length body) timestamp rest k h,
      take-exact (length body) body (size_bytes m.file_mode (length body + 11)) refl,
      drop-exact (length body) body (size_bytes m.file_mode (length body + 11)) refl,
    )

parse_file_header-flags :
    (audio video mode : Bool)
    → parse_file_header (
        (0x46 ∷ 0x4c ∷ 0x56 ∷ 1 ∷ (as_flag audio 4 + as_flag video 1) ∷ bytes_of 4 9)
        ++ size_bytes mode 0)
      ≡ ok record { version = 1; has_audio = audio; has_video = video; header_size = 9 }
unfolding parse_file_header
parse_file_header-flags true true true = refl
parse_file_header-flags true true false = refl
parse_file_header-flags true false true = refl
parse_file_header-flags true false false = refl
parse_file_header-flags false true true = refl
parse_file_header-flags false true false = refl
parse_file_header-flags false false true = refl
parse_file_header-flags false false false = refl

-- A file header that is not written yet is appended once, and is read back with the tracks that the
-- multiplexer has; a second call writes nothing.
pub write_header-IsRead :
    (m : FlvMuxer)
    → m.header_written ≡ false
    → (head : List ℕ) × ((write_header m).output ≡ m.output ++ head)
      × (parse_file_header head
          ≡ ok record {
            version = 1;
            has_audio = m.has_audio;
            has_video = m.has_video;
            header_size = 9;
          })
      × (drop 9 head ≡ size_bytes m.file_mode 0)
      × (write_header (write_header m) ≡ write_header m)
unfolding write_header
write_header-IsRead m h = rw h (
  file_header_bytes m ++ size_bytes m.file_mode 0,
  append_assoc m.output (file_header_bytes m) (size_bytes m.file_mode 0),
  parse_file_header-flags m.has_audio m.has_video m.file_mode,
  refl,
  refl,
)
