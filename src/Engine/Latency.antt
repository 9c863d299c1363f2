-- ===== src/Engine/Latency.antt =====
-- crates/cheetah-media-engine/src/latency.rs: the latency controller.
pub mod Correct
mod Tests
use cheetah_media_engine.Prelude.{
  ℕ, String, Bool, ◌&&◌, Option, none, some, unwrap_or, if◌then◌else◌,
}
use cheetah_media_engine.Prelude.Int.{ℤ, pos, ltb_ℤ, sat_add_i64, sat_sub_i64}
use cheetah_media_engine.Types.Time.{quotient}

pub record LatencyTarget : Type 0 where
  pub soft_ms : ℤ
  pub hard_ms : ℤ

abbrev pub default_target : LatencyTarget
default_target = record { soft_ms = pos 300; hard_ms = pos 1500 }

pub record LatencyBreakdown : Type 0 where
  pub input_to_demux_ms : ℤ
  pub decode_ms : ℤ
  pub render_ms : ℤ
  pub wall_offset_ms : ℤ

pub total_ms : LatencyBreakdown → ℤ
total_ms b = sat_add_i64 (sat_add_i64 b.input_to_demux_ms b.decode_ms) b.render_ms

pub data LatencyAction : Type 0 where
  no_action : LatencyAction
  speed_up : ℤ → String → LatencyAction
  -- the target latency, the dropped milliseconds
  drop_to_keyframe : ℤ → ℤ → String → LatencyAction
  jump_to_live : ℤ → String → LatencyAction

pub record LatencyController : Type 0 where
  pub target : LatencyTarget
  pub last_action : LatencyAction
  pub total_dropped_ms : ℤ

unfoldable pub new_latency : LatencyTarget → LatencyController
new_latency t = record { target = t; last_action = no_action; total_dropped_ms = pos 0 }

unfoldable pub default_latency : LatencyController
unfolding new_latency
default_latency = new_latency default_target

-- The controller after an action that drops `dropped` milliseconds.
abbrev drops : LatencyController → ℤ → LatencyAction → LatencyController × LatencyAction
drops c dropped a =
    (record c { last_action = a; total_dropped_ms = sat_add_i64 c.total_dropped_ms dropped }, a)

-- How far the render lags the demuxer, in milliseconds; an unknown time counts as 0.
abbrev pub render_gap : Option ℤ → Option ℤ → ℤ
render_gap demux render =
    quotient (sat_sub_i64 (unwrap_or demux (pos 0)) (unwrap_or render (pos 0))) 1000

-- The last branch: speed up or do nothing.
mild : LatencyController → ℤ → Option ℤ → Option ℤ → LatencyController × LatencyAction
mild c total demux render =
    if ltb_ℤ (quotient c.target.soft_ms 2) total
      && ltb_ℤ (quotient c.target.soft_ms 4) (render_gap demux render)
    then (
      record c { last_action = speed_up (pos 105) "draining mild latency" },
      speed_up (pos 105) "draining mild latency",
    )
    else (record c { last_action = no_action }, no_action)

-- `buffer_ms` is the buffer level of the clock's statistics; a clock time is its microseconds.
pub update :
    LatencyController
    → ℤ
    → LatencyBreakdown
    → Option ℤ
    → Option ℤ
    → LatencyController × LatencyAction
unfolding mild total_ms
update c buffer_ms breakdown demux render =
    let total = total_ms breakdown in
    let soft = c.target.soft_ms in
    if ltb_ℤ c.target.hard_ms total
    then drops c (sat_sub_i64 total soft)
        (jump_to_live (sat_sub_i64 total soft) "latency exceeded hard target")
    else if ltb_ℤ soft total && ltb_ℤ soft buffer_ms
    then drops c (sat_sub_i64 total (quotient soft 2)) (
        drop_to_keyframe (quotient soft 2) (sat_sub_i64 total (quotient soft 2))
          "latency exceeded soft target with available buffer")
    else mild c total demux render
