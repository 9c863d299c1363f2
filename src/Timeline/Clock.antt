-- ===== src/Timeline/Clock.antt =====
-- crates/cheetah-media-timeline/src/clock.rs: the media clock, which maps timestamps of several
-- epochs to one render time. Times are i64, as integers that the source's operations keep in range.
pub mod Monotone
mod Tests
use cheetah_media_engine.Prelude.{
  ℕ, ◌+◌, ◌*◌, ◌/◌, ◌^◌, Bool, true, false, not, ◌&&◌, ◌||◌, List, [], ◌∷◌, Option, none, some,
  map_option, unwrap_or, sat_add, ltb, leb, ◌==◌, if◌then◌else◌,
}
use cheetah_media_engine.Prelude.Int.{
  ℤ, pos, pos_part, neg_part, ltb_ℤ, sat_add_i64, sat_sub_i64, clamp_i64,
}
use cheetah_media_engine.Types.Error.{Result}
use cheetah_media_engine.Types.Time.{
  TimeBase, MediaTime, rescale_i64, unwrapped_around, quotient, times, checked_add,
}
use cheetah_media_engine.Types.Track.{StreamEpoch}

abbrev pub internal_timebase : TimeBase
internal_timebase = record { num = 1; den = 1000000 }

-- Whole milliseconds of a clock time in microseconds.
abbrev pub clock_ms : ℤ → ℤ
clock_ms us = quotient us 1000

pub data TimelineError : Type 0 where
  missing_timestamp overflow : TimelineError

pub data PlaybackState : Type 0 where
  preroll playing catch_up rebuffering ended : PlaybackState

pub record ClockStats : Type 0 where
  pub live_latency_ms : ℤ
  pub buffer_level_ms : ℤ
  pub jitter_ms : ℤ
  pub drift_ms : ℤ
  pub dropped_duration_ms : ℤ
  pub discontinuities : ℕ
  pub wraps : ℕ

abbrev pub no_stats : ClockStats
no_stats = record {
  live_latency_ms = pos 0;
  buffer_level_ms = pos 0;
  jitter_ms = pos 0;
  drift_ms = pos 0;
  dropped_duration_ms = pos 0;
  discontinuities = 0;
  wraps = 0;
}

pub record EpochState : Type 0 where
  pub base_us : ℤ
  pub last_source_ticks : ℤ
  pub last_raw_us : ℤ
  pub last_clock_us : ℤ
  pub last_delta_us : ℤ

pub record MediaClock : Type 0 where
  pub epochs : List (StreamEpoch × EpochState)
  pub last_overall_clock_us : ℤ
  pub wrap_bits : Option ℕ
  pub discontinuity_threshold_us : ℤ
  pub playback : PlaybackState
  pub stats : ClockStats

-- `filter` of the bit counts for which unwrapping is defined.
abbrev pub valid_bits : Option ℕ → Option ℕ
valid_bits none = none
valid_bits (some b) = if leb 1 b && leb b 62 then some b else none

abbrev pub at_least_zero : ℤ → ℤ
at_least_zero t = if ltb_ℤ t (pos 0) then pos 0 else t

unfoldable pub new_clock : Option ℕ → Option ℤ → MediaClock
new_clock wrap_bits threshold = record {
  epochs = [];
  last_overall_clock_us = pos 0;
  wrap_bits = valid_bits wrap_bits;
  discontinuity_threshold_us = at_least_zero (unwrap_or threshold (pos 5000000));
  playback = preroll;
  stats = no_stats;
}

unfoldable pub epoch_state : List (StreamEpoch × EpochState) → StreamEpoch → Option EpochState
epoch_state [] e = none
epoch_state ((k, s) ∷ rest) e = if k == e then some s else epoch_state rest e

unfoldable pub insert_epoch :
    List (StreamEpoch × EpochState) → StreamEpoch → EpochState → List (StreamEpoch × EpochState)
insert_epoch [] e s = (e, s) ∷ []
insert_epoch ((k, old) ∷ rest) e s =
    let later = insert_epoch rest e s in if k == e then (k, s) ∷ rest else (k, old) ∷ later

-- `Result<A, TimelineError>`.
pub data Timed {ℓ} (A : Type ℓ) : Type ℓ where
  ok : A → Timed A
  err : TimelineError → Timed A

infixl 5 ◌>>=◌
abbrev pub ◌>>=◌ {ℓ κ} : {A : Type ℓ} {B : Type κ} → Timed A → (A → Timed B) → Timed B
ok a >>= f = f a
err e >>= f = err e

abbrev pub or_overflow {ℓ} : {A : Type ℓ} → Option A → Timed A
or_overflow (some a) = ok a
or_overflow none = err overflow

abbrev pub rescaled : Result ℤ → Timed ℤ
rescaled (Result.ok v) = ok v
rescaled (Result.err e) = err overflow

abbrev pub raw_ticks : MediaTime → Timed ℤ
raw_ticks time = elim time.pts [
  | some ticks ↦ ok ticks
  | none ↦ elim time.dts [ some ticks ↦ ok ticks | none ↦ err missing_timestamp ]
]

-- The ticks of a sample next to those of the last one of its epoch.
abbrev pub unwrap_ticks : Option EpochState → Option ℕ → ℤ → ℤ
unwrap_ticks none bits ticks = ticks
unwrap_ticks (some s) none ticks = ticks
unwrap_ticks (some s) (some bits) ticks = unwrapped_around ticks s.last_source_ticks bits

abbrev pub eq_ℤ : ℤ → ℤ → Bool
eq_ℤ a b = not (ltb_ℤ a b) && not (ltb_ℤ b a)

-- The base that puts `raw` one after the time `last`.
abbrev pub base_after : ℤ → ℤ → ℤ
base_after last raw = sat_add_i64 (sat_sub_i64 last raw) (pos 1)

abbrev pub is_jump : MediaClock → Option EpochState → ℤ → Bool
is_jump c none raw = false
is_jump c (some s) raw = ltb_ℤ c.discontinuity_threshold_us (sat_sub_i64 s.last_raw_us raw)

abbrev pub first_base : MediaClock → Option EpochState → ℤ → ℤ
first_base c (some s) raw =
    if is_jump c (some s) raw then base_after c.last_overall_clock_us raw else s.base_us
first_base c none raw =
    if eq_ℤ c.last_overall_clock_us (pos 0) then pos 0 else base_after c.last_overall_clock_us raw

-- A base with the time that it gives; a time before `last` is moved to just after it.
abbrev pub not_before : ℤ → ℤ → ℤ × ℤ → Timed (ℤ × ℤ)
not_before raw last (base, time) =
    if ltb_ℤ time last
    then (or_overflow (checked_add (base_after last raw) raw) >>= λ t. ok (base_after last raw, t))
    else ok (base, time)

abbrev pub last_clock : Option EpochState → ℤ
last_clock (some s) = s.last_clock_us
last_clock none = pos 0

abbrev pub place : MediaClock → Option EpochState → ℤ → Timed (ℤ × ℤ)
place c existing raw =
    let base = first_base c existing raw in
    or_overflow (checked_add base raw)
    >>= (λ time. not_before raw (last_clock existing) (base, time))
    >>= not_before raw c.last_overall_clock_us

abbrev pub delta_since : Option EpochState → ℤ → ℤ
delta_since (some s) raw = sat_sub_i64 raw s.last_raw_us
delta_since none raw = sat_sub_i64 raw raw

abbrev pub last_delta : Option EpochState → ℤ
last_delta (some s) = s.last_delta_us
last_delta none = pos 0

abbrev pub sat_abs : ℤ → ℤ
sat_abs d = clamp_i64 (pos (pos_part d + neg_part d))

-- The largest deviation between two deltas, in milliseconds; the first delta has nothing to
-- deviate from.
abbrev pub next_jitter : ℤ → ℤ → ℤ → ℤ
next_jitter jitter delta before =
    let deviation = sat_abs (sat_sub_i64 delta before) in
    if not (eq_ℤ before (pos 0)) && ltb_ℤ (clamp_i64 (times jitter 1000)) deviation
    then quotient deviation 1000
    else jitter

abbrev pub max_ℤ : ℤ → ℤ → ℤ
max_ℤ a b = if ltb_ℤ b a then a else b

-- The state after a sample that was placed at `time` over `base`.
abbrev pub recorded :
    MediaClock → StreamEpoch → Option EpochState → ℤ → ℤ → Bool → ℤ × ℤ → MediaClock
recorded c epoch existing ticks raw wrapped (base, time) =
    let delta = delta_since existing raw in
    let jump = is_jump c existing raw in
    record c {
      epochs = insert_epoch c.epochs epoch (record {
        base_us = base;
        last_source_ticks = ticks;
        last_raw_us = raw;
        last_clock_us = time;
        last_delta_us = if jump || wrapped then pos 0 else delta;
      });
      last_overall_clock_us = max_ℤ time c.last_overall_clock_us;
      stats = record c.stats {
        discontinuities =
            if jump then sat_add c.stats.discontinuities 1 else c.stats.discontinuities;
        wraps = if wrapped then sat_add c.stats.wraps 1 else c.stats.wraps;
        jitter_ms = next_jitter c.stats.jitter_ms delta (last_delta existing);
      };
    }

-- The microseconds of a sample, before the base of its epoch is added.
abbrev pub raw_us : MediaClock → MediaTime → StreamEpoch → ℤ → Timed ℤ
raw_us c time epoch source = rescaled (
    rescale_i64 time.timebase (unwrap_ticks (epoch_state c.epochs epoch) c.wrap_bits source)
      internal_timebase)

abbrev pub place_raw : MediaClock → StreamEpoch → ℤ → ℤ → Timed (MediaClock × ℤ)
place_raw c epoch source raw =
    let existing = epoch_state c.epochs epoch in
    let ticks = unwrap_ticks existing c.wrap_bits source in
    place c existing raw >>= λ placed.
    ok (recorded c epoch existing ticks raw (not (eq_ℤ ticks source)) placed, placed.1)

-- An error leaves the clock as it was.
unfoldable pub update : MediaClock → MediaTime → StreamEpoch → Timed (MediaClock × ℤ)
update c time epoch =
    raw_ticks time >>= λ source. raw_us c time epoch source >>= λ raw. place_raw c epoch source raw

abbrev pub now : MediaClock → ℤ
now c = c.last_overall_clock_us

abbrev pub set_state : MediaClock → PlaybackState → MediaClock
set_state c s = record c { playback = s }

abbrev pub set_stats : MediaClock → ℤ → ℤ → ℤ → MediaClock
set_stats c latency level drift = record c {
  stats = record c.stats { live_latency_ms = latency; buffer_level_ms = level; drift_ms = drift };
}

abbrev pub add_dropped : MediaClock → ℤ → MediaClock
add_dropped c ms = record c {
  stats = record c.stats { dropped_duration_ms = sat_add_i64 c.stats.dropped_duration_ms ms };
}
