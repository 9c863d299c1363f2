-- ===== src/Mpegts/Clock.antt =====
-- crates/cheetah-container-mpegts/src/clock.rs: the clock references and their jitter and drift.
pub mod Jitter
mod Tests
use cheetah_media_engine.Prelude.{
  ℕ, ◌+◌, ◌-◌, ◌*◌, ◌/◌, ◌^◌, min, max, Bool, ◌&&◌, Option, none, some, u64_max, sat_add, sat_mul,
  ltb, if◌then◌else◌,
}
use cheetah_media_engine.Prelude.Int.{ℤ, pos, pos_part, neg_part, sub_ℕ, clamp_i64}
use cheetah_media_engine.Types.Time.{times, quotient}

abbrev pub pcr_hz : ℕ
pcr_hz = 27000000

pub record ClockState : Type 0 where
  pub hz : ℕ
  pub last_pcr : Option ℕ
  pub last_wall_ms : Option ℕ
  pub jitter_hz : Option ℕ
  pub drift_hz_per_s : Option ℤ
  pub live_edge_ms : Option ℕ

abbrev pub no_clock : ClockState
no_clock = record {
  hz = pcr_hz;
  last_pcr = none;
  last_wall_ms = none;
  jitter_hz = none;
  drift_hz_per_s = none;
  live_edge_ms = none;
}

pub record PcrClock : Type 0 where
  pub state : ClockState
  pub last_reference : Option ℕ
  pub last_arrival_ms : Option ℕ
  pub jitter : ℕ
  pub drift : ℤ
  pub sample_count : ℕ

abbrev pub new_clock : PcrClock
new_clock = record {
  state = no_clock;
  last_reference = none;
  last_arrival_ms = none;
  jitter = 0;
  drift = pos 0;
  sample_count = 0;
}

abbrev pub pcr_to_ms : ℕ → ℕ
pcr_to_ms pcr = pcr / (pcr_hz / 1000)

-- The product is not checked in the source; it is exact below 2 ^ 64.
abbrev pub ms_to_pcr : ℕ → ℕ
ms_to_pcr ms = ms * (pcr_hz / 1000)

-- The spacing of the references less that of their arrivals, an i128 that holds it exactly.
abbrev pub spacing : ℕ → ℕ → ℤ
spacing delta_pcr delta_ms = sub_ℕ delta_pcr (sat_mul delta_ms (pcr_hz / 1000))

abbrev pub abs : ℤ → ℕ
abs d = pos_part d + neg_part d

-- The running mean of the deviations, in u128, and cut to a u64.
abbrev pub next_jitter : ℕ → ℕ → ℕ → ℕ
next_jitter jitter count deviation =
    min
      (min (min (jitter * count) (2 ^ 128 - 1) + min deviation u64_max) (2 ^ 128 - 1)
        / max (sat_add count 1) 1)
      u64_max

abbrev pub next_drift : ℤ → ℕ → ℤ
next_drift diff delta_ms = clamp_i64 (quotient (times diff 1000) (max delta_ms 1))

-- The two estimates, after a reference that is later than the last one in both clocks.
abbrev pub estimate : PcrClock → ℕ → ℕ → PcrClock
estimate c delta_pcr delta_ms =
    let diff = spacing delta_pcr delta_ms in
    record c {
      jitter = next_jitter c.jitter c.sample_count (abs diff);
      drift = if ltb 0 c.sample_count then next_drift diff delta_ms else c.drift;
    }

abbrev pub compare_last : PcrClock → ℕ → ℕ → Option ℕ → Option ℕ → PcrClock
compare_last c pcr wall (some last_pcr) (some last_wall) =
    if ltb last_pcr pcr && ltb last_wall wall
    then estimate c (pcr - last_pcr) (wall - last_wall)
    else c
compare_last c pcr wall (some last_pcr) none = c
compare_last c pcr wall none last_wall = c

abbrev pub arrival : ℕ → Option ℕ → ℕ
arrival pcr (some wall) = wall
arrival pcr none = pcr_to_ms pcr

-- The state that is reported is also kept.
abbrev pub report : PcrClock → ℕ → ℕ → PcrClock
report c pcr wall =
    let count = sat_add c.sample_count 1 in
    record c {
      sample_count = count;
      last_reference = some pcr;
      last_arrival_ms = some wall;
      state = record {
        hz = pcr_hz;
        last_pcr = some pcr;
        last_wall_ms = some wall;
        jitter_hz = if ltb 1 count then some c.jitter else none;
        drift_hz_per_s = if ltb 1 count then some c.drift else none;
        live_edge_ms = some wall;
      };
    }

pub feed : PcrClock → ℕ → Option ℕ → PcrClock
feed c pcr wall_ms =
    let wall = arrival pcr wall_ms in
    report (compare_last c pcr wall c.last_reference c.last_arrival_ms) pcr wall
