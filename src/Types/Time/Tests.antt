-- ===== src/Types/Time/Tests.antt =====
-- The theorems on timestamps at concrete times.
use cheetah_media_engine.Prelude.{ℕ, ◌≡◌, ◌⊎◌, refl, arith, none, some, true}
use cheetah_media_engine.Prelude.Int.{pos, negsuc, ◌+ℤ◌}
use cheetah_media_engine.Types.Error.{ok}
use cheetah_media_engine.Types.Time.{
  TimeBase, default_timebase, ts_90k, in_i64, unwrapped_around, rescale_i64, checked_times,
  numerator, checked_quotient, new_timebase, checked_add, MediaTime, time_checked_add,
}
use cheetah_media_engine.Types.Time.Reduce.{IsReduced, new_timebase-IsReduced}
use cheetah_media_engine.Types.Time.Unwrap.{Unwraps, unwrapped_around-Unwraps}
use cheetah_media_engine.Types.Time.Rescale.{Truncates, rescale_i64-Truncates}

-- 100 ticks after a wrap at 33 bits.
unwrapped_around-Unwraps_example :
    Unwraps (pos 100) (pos 8589934000) 33 (unwrapped_around (pos 100) (pos 8589934000) 33)
unwrapped_around-Unwraps_example =
    unwrapped_around-Unwraps (pos 100) (pos 8589934000) 33 (omega arith) (omega arith) (omega arith)
      (omega arith)

a_second_and_a_tick : rescale_i64 ts_90k (negsuc 90000) default_timebase ≡ ok (negsuc 999)
unfolding rescale_i64 checked_times numerator checked_quotient
a_second_and_a_tick = refl

rescale_i64-Truncates_example :
    Truncates (negsuc 90000) 1000 90000 (negsuc 999) × (in_i64 (negsuc 999) ≡ true)
rescale_i64-Truncates_example =
    rescale_i64-Truncates ts_90k default_timebase (negsuc 90000) (negsuc 999) (omega arith)
      (omega arith) refl a_second_and_a_tick

abbrev decoded : MediaTime
decoded = record {
  pts = some (pos 9000);
  dts = some (pos 3000);
  duration = none;
  timebase = ts_90k;
}

abbrev moved : MediaTime
moved = record decoded { pts = some (pos 4000); dts = some (negsuc 1999) }

move_back : time_checked_add decoded (negsuc 4999) ≡ some moved
unfolding time_checked_add ◌+ℤ◌ checked_add
move_back = refl

abbrev fraction : ℕ
fraction = 3003

abbrev whole : ℕ
whole = 90000

new_timebase-IsReduced_example :
    ((new_timebase fraction whole ≡ none) × ((fraction ≡ 0) ⊎ (whole ≡ 0)))
    ⊎ ((t : TimeBase) × (new_timebase fraction whole ≡ some t) × IsReduced 6 fraction whole t)
new_timebase-IsReduced_example = new_timebase-IsReduced fraction whole 6
