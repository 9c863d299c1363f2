-- ===== src/Types/Budget/Tests.antt =====
-- The theorems on budgets at concrete budgets.
use cheetah_media_engine.Prelude.{◌<◌, ◌≡◌, ◌↔◌, ◌⊎◌, none, [], ◌∷◌, true}
use cheetah_media_engine.Types.Budget.{
  network_to_wasm, demux_to_mse, CopyBudget, drop_non_keyframe, StageBudget, should_admit,
}
use cheetah_media_engine.Types.Budget.Stages.{Squeezes, should_admit_iff}

abbrev copies : CopyBudget
copies = record {
  counters =
      (network_to_wasm, record { bytes = 900; count = 2 })
      ∷ (demux_to_mse, record { bytes = 50; count = 1 })
      ∷ [];
  total_limit = none;
}

abbrev stage : StageBudget
stage = record {
  max_in_flight = 4;
  high_watermark = 3;
  low_watermark = 1;
  drop_policy = drop_non_keyframe;
}

should_admit_iff_example : (should_admit stage stage.max_in_flight true true true ≡ true) ↔ (
    (stage.max_in_flight < stage.max_in_flight)
    ⊎ ((stage.max_in_flight ≡ stage.max_in_flight) × Squeezes drop_non_keyframe true true true))
should_admit_iff_example = should_admit_iff stage stage.max_in_flight true true true
