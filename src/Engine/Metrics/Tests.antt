-- ===== src/Engine/Metrics/Tests.antt =====
-- The theorems on the counters at concrete counters.
use cheetah_media_engine.Types.Budget.{demux_to_mse}
use cheetah_media_engine.Engine.Metrics.{Metrics, new_metrics, metrics_record_copy}

abbrev copied : Metrics
copied = metrics_record_copy (metrics_record_copy new_metrics demux_to_mse 100) demux_to_mse 20
