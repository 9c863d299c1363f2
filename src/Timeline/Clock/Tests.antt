-- ===== src/Timeline/Clock/Tests.antt =====
-- Tests of the media clock.
use cheetah_media_engine.Prelude.{◌≡◌, refl, ◌^◌, ◌-◌, none, some, arith}
use cheetah_media_engine.Prelude.Int.{ℤ, pos, negsuc, ◌+ℤ◌, ◌-ℤ◌}
use cheetah_media_engine.Types.Time.{MediaTime, rescale_i64, checked_add}
use cheetah_media_engine.Timeline.Clock.{
  MediaClock, new_clock, internal_timebase, update, ok, Timed, epoch_state, insert_epoch,
}
use cheetah_media_engine.Timeline.Clock.Monotone.{IsAfter, update-IsAfter}

abbrev at_us : ℤ → MediaTime
at_us t = record { pts = some t; dts = none; duration = none; timebase = internal_timebase }

abbrev running : MediaClock
running = record (new_clock none none) { last_overall_clock_us = pos 100 }

update-IsAfter_example : IsAfter (pos 100) (update running (at_us (pos 50)) 1)
unfolding rescale_i64 epoch_state ◌-ℤ◌ new_clock
update-IsAfter_example =
    update-IsAfter running (at_us (pos 50)) 1 (pos 50) (pos 50) refl refl (omega arith)

-- The time of a returned update.
abbrev time_of : Timed (MediaClock × ℤ) → ℤ
time_of (ok (c, t)) = t
time_of (Timed.err e) = pos 0

-- A sample of a new epoch comes right after the latest time.
new_epoch_time : time_of (update running (at_us (pos 50)) 1) ≡ pos 101
unfolding update rescale_i64 epoch_state checked_add ◌-ℤ◌ ◌+ℤ◌ new_clock insert_epoch
new_epoch_time = refl

-- A sample at the least i64 puts the time back behind the latest one: the distance saturates.
far_sample_goes_back : time_of (update running (at_us (negsuc (2 ^ 63 - 1))) 1) ≡ negsuc 0
unfolding update rescale_i64 epoch_state checked_add ◌-ℤ◌ ◌+ℤ◌ new_clock insert_epoch
far_sample_goes_back = refl
