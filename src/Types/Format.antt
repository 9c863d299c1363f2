-- ===== src/Types/Format.antt =====
-- crates/cheetah-media-types/src/format.rs, and the codec and track kinds of lib.rs.
pub mod Channels
mod Tests
use native.Mathlib.Decide.{ℕ_discrete}
use cheetah_media_engine.Prelude.{
  ℕ, zero, suc, ◌+◌, ◌-◌, ◌/◌, ◌%◌, ◌^◌, Bool, ◌&&◌, leb, ◌==◌, if◌then◌else◌, sat_mul, u64_max,
}

pub data CodecId : Type 0 where
  h264 h265 aac g711a g711u mp3 opus pcm_u8 pcm_s16 : CodecId
  unknown : ℕ → CodecId

pub data TrackKind : Type 0 where
  video audio metadata : TrackKind

pub data PixelFormat : Type 0 where
  yuv420p yuv422p yuv444p nv12 nv21 rgba bgra rgb24 bgr24 i420 : PixelFormat
  unknown : ℕ → PixelFormat

pub data ColorSpace : Type 0 where
  bt601 bt709 bt2020 bt2020c smpte170m smpte240m unspecified : ColorSpace

pub data SampleFormat : Type 0 where
  u8 s16 s32 f32 f64 s16_planar s32_planar f32_planar f64_planar : SampleFormat
  unknown : ℕ → SampleFormat

pub data ChannelLayout : Type 0 where
  mono stereo surround21 surround31 surround40 surround41 : ChannelLayout
  surround50 surround51 surround61 surround71 : ChannelLayout
  unknown : ℕ → ChannelLayout

-- The number of ones among the lowest `k` bits; `count_ones` of a u64 is at k = 64.
count_ones : ℕ → ℕ → ℕ
count_ones zero n = 0
count_ones (suc k) n = n % 2 + count_ones k (n / 2)

pub channels : ChannelLayout → ℕ
unfolding count_ones
channels mono = 1
channels stereo = 2
channels surround21 = 3
channels surround31 = 4
channels surround40 = 4
channels surround41 = 5
channels surround50 = 5
channels surround51 = 6
channels surround61 = 7
channels surround71 = 8
channels (ChannelLayout.unknown mask) = count_ones 64 mask

pub from_channel_count : ℕ → ChannelLayout
from_channel_count n =
    if n == 1
    then mono
    else if n == 2
    then stereo
    else if n == 0
    then ChannelLayout.unknown 0
    else if leb 64 n
    then ChannelLayout.unknown u64_max
    else ChannelLayout.unknown (2 ^ n - 1)

pub record VideoFormat : Type 0 where
  pub pixel_format : PixelFormat
  pub coded_width : ℕ
  pub coded_height : ℕ
  pub visible_width : ℕ
  pub visible_height : ℕ
  pub stride : ℕ
  pub color_space : ColorSpace

is_valid : VideoFormat → Bool
is_valid f = leb f.visible_width f.coded_width && leb f.visible_height f.coded_height

pub record AudioFormat : Type 0 where
  pub sample_format : SampleFormat
  pub sample_rate : ℕ
  pub channel_layout : ChannelLayout
  pub sample_count : ℕ

bytes_per_sample : SampleFormat → ℕ
bytes_per_sample u8 = 1
bytes_per_sample s16 = 2
bytes_per_sample s16_planar = 2
bytes_per_sample s32 = 4
bytes_per_sample f32 = 4
bytes_per_sample s32_planar = 4
bytes_per_sample f32_planar = 4
bytes_per_sample f64 = 8
bytes_per_sample f64_planar = 8
bytes_per_sample (SampleFormat.unknown n) = 0

total_samples : AudioFormat → ℕ
total_samples f = sat_mul f.sample_count (channels f.channel_layout)

pub VideoFormat-discrete : Discrete VideoFormat
VideoFormat-discrete = hlevel ℕ_discrete

pub AudioFormat-discrete : Discrete AudioFormat
AudioFormat-discrete = hlevel ℕ_discrete
