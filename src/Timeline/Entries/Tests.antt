-- ===== src/Timeline/Entries/Tests.antt =====
-- Tests of the timeline, with a search from the front.
use cheetah_media_engine.Prelude.{ℕ, suc, ◌≡◌, refl, List, [], ◌∷◌, some, none, if◌then◌else◌}
use cheetah_media_engine.Prelude.Int.{ℤ, pos, ltb_ℤ}
use cheetah_media_engine.Types.Time.{MediaTime, default_timebase}
use cheetah_media_engine.Timeline.Entries.{Timeline, push_time}

-- How many keys at the front are smaller.
abbrev from_front : List ℤ → ℤ → ℕ
from_front [] k = 0
from_front (x ∷ ks) k = let rest = from_front ks k in if ltb_ℤ x k then suc rest else 0

abbrev time_at : ℕ → MediaTime
time_at ms = record {
  pts = some (pos ms);
  dts = none;
  duration = none;
  timebase = default_timebase;
}

abbrev two_times : Timeline
two_times = record { entries = time_at 1000 ∷ time_at 3000 ∷ [] }

pushed_between :
    (push_time from_front two_times (time_at 2000)).entries
    ≡ time_at 1000 ∷ time_at 2000 ∷ time_at 3000 ∷ []
unfolding push_time
pushed_between = refl
