-- ===== src/Engine/Latency/Tests.antt =====
-- The theorems on the latency controller at a concrete controller.
use cheetah_media_engine.Prelude.{ℕ, arith}
use cheetah_media_engine.Prelude.Int.{pos, ◌≤ℤ◌, ◌+ℤ◌}
use cheetah_media_engine.Engine.Latency.{
  LatencyController, default_target, no_action, LatencyBreakdown, total_ms,
}

abbrev controller : LatencyController
controller = record { target = default_target; last_action = no_action; total_dropped_ms = pos 40 }

abbrev delay_of : ℕ → LatencyBreakdown
delay_of n = record {
  input_to_demux_ms = pos 10;
  decode_ms = pos n;
  render_ms = pos 16;
  wall_offset_ms = pos 0;
}

more_delay : total_ms (delay_of 200) ≤ℤ total_ms (delay_of 2000)
unfolding total_ms ◌+ℤ◌
more_delay = omega arith
