-- ===== src/Types/Format/Channels.antt =====
-- What a channel layout built from a channel count says of that count.
use cheetah_media_engine.Prelude.{ℕ, zero, suc, ◌-◌, ◌/◌, ◌^◌, min, ◌≡◌, refl, arith, pow_two_pos}
use cheetah_media_engine.Types.Format.{count_ones, channels, from_channel_count}
use native.Mathlib.Nat.{pow-suc}

count_ones_zero : (k : ℕ) → count_ones k 0 ≡ 0
unfolding count_ones
count_ones_zero zero = refl
count_ones_zero (suc k) = omega (arith, count_ones_zero k)

-- A mask of `j` low bits has `j` ones, as far as the word reaches.
count_ones_mask : (k j : ℕ) → count_ones k (2 ^ j - 1) ≡ min j k
unfolding count_ones
count_ones_mask zero j = omega arith
count_ones_mask (suc k) zero = omega (arith, count_ones_zero k)
count_ones_mask (suc k) (suc j) =
    let half : (2 ^ suc j - 1) / 2 ≡ 2 ^ j - 1 = omega (arith, pow-suc 2 j, pow_two_pos j) in
    rw half (omega (arith, pow-suc 2 j, pow_two_pos j, count_ones_mask k j))

-- Up to 64 channels, the layout built from a channel count has as many channels as were counted;
-- from 64 on it has 64.
pub channels-from_channel_count : (n : ℕ) → channels (from_channel_count n) ≡ min n 64
unfolding channels from_channel_count
channels-from_channel_count n = ground (arith, count_ones_mask 64 n, count_ones_mask 64 64)
