-- ===== src/Engine/Metrics.antt =====
-- crates/cheetah-media-engine/src/metrics.rs: performance counters and their snapshot.
pub mod Snapshot
mod Tests
use cheetah_media_engine.Prelude.{
  ℕ, String, str_eq, List, [], ◌∷◌, none, sat_add, ltb, if◌then◌else◌,
}
use cheetah_media_engine.Prelude.Int.{ℤ, pos, sat_add_i64}
use cheetah_media_engine.Types.Budget.{
  CopyReason, CopyCounter, CopyBudget, reason_name, new_budget, record_copy,
}

pub record CopyMetric : Type 0 where
  pub bytes : ℕ
  pub count : ℕ

pub record AllocationMetric : Type 0 where
  pub count : ℕ
  pub bytes : ℕ

-- `copy` is the map of names as an association list.
pub record MetricsSnapshot : Type 0 where
  pub copy : List (String × CopyMetric)
  pub allocations : AllocationMetric
  pub pool_hits : ℕ
  pub pool_misses : ℕ
  pub peak_in_flight : ℕ
  pub current_in_flight : ℕ
  pub total_dropped_ms : ℤ

pub record Metrics : Type 0 where
  pub copy_budget : CopyBudget
  pub allocations : AllocationMetric
  pub pool_hits : ℕ
  pub pool_misses : ℕ
  pub peak_in_flight : ℕ
  pub current_in_flight : ℕ
  pub total_dropped_ms : ℤ

pub new_metrics : Metrics
unfolding new_budget
new_metrics = record {
  copy_budget = new_budget none;
  allocations = record { count = 0; bytes = 0 };
  pool_hits = 0;
  pool_misses = 0;
  peak_in_flight = 0;
  current_in_flight = 0;
  total_dropped_ms = pos 0;
}

pub metrics_record_copy : Metrics → CopyReason → ℕ → Metrics
metrics_record_copy m reason bytes = record m {
  copy_budget = record_copy m.copy_budget reason bytes;
}

pub record_allocation : Metrics → ℕ → Metrics
record_allocation m bytes = record m {
  allocations = record {
    count = sat_add m.allocations.count 1;
    bytes = sat_add m.allocations.bytes bytes;
  };
}

-- The hits and misses of a pool's statistics.
record_pool_stats : Metrics → ℕ → ℕ → Metrics
record_pool_stats m hits misses = record m { pool_hits = hits; pool_misses = misses }

pub record_in_flight : Metrics → ℕ → Metrics
record_in_flight m current = record m {
  current_in_flight = current;
  peak_in_flight = if ltb m.peak_in_flight current then current else m.peak_in_flight;
}

record_dropped_ms : Metrics → ℤ → Metrics
record_dropped_ms m ms = record m { total_dropped_ms = sat_add_i64 m.total_dropped_ms ms }

-- `entry(key).or_default()`, then the sums.
add_entry : String → CopyCounter → List (String × CopyMetric) → List (String × CopyMetric)
add_entry key c [] = (key, record { bytes = sat_add 0 c.bytes; count = sat_add 0 c.count }) ∷ []
add_entry key c ((k, e) ∷ m) =
    if str_eq k key
    then (k, record { bytes = sat_add e.bytes c.bytes; count = sat_add e.count c.count }) ∷ m
    else (k, e) ∷ add_entry key c m

copy_entries :
    List (String × CopyMetric) → List (CopyReason × CopyCounter) → List (String × CopyMetric)
copy_entries copy [] = copy
copy_entries copy ((r, c) ∷ cs) = copy_entries (add_entry (reason_name r) c copy) cs

pub snapshot : Metrics → MetricsSnapshot
unfolding add_entry copy_entries
snapshot m = record {
  copy = copy_entries [] m.copy_budget.counters;
  allocations = m.allocations;
  pool_hits = m.pool_hits;
  pool_misses = m.pool_misses;
  peak_in_flight = m.peak_in_flight;
  current_in_flight = m.current_in_flight;
  total_dropped_ms = m.total_dropped_ms;
}

reset_metrics : Metrics → Metrics
reset_metrics m = new_metrics
