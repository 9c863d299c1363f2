-- ===== src/Types/Budget/Stages.antt =====
-- What a stage budget admits.
use cheetah_media_engine.Prelude.{
  ℕ, min, ◌≤◌, ◌<◌, ◌≡◌, ◌↔◌, arith, Bool, true, false, ◌⊎◌, inl, leb, ltb, if◌then◌else◌,
}
use cheetah_media_engine.Types.Budget.{
  DropPolicy, never, drop_non_keyframe, drop_oldest, StageBudget, new_stage, should_admit,
  admit_at_limit,
}

-- Whatever watermarks are asked for, the stage's own are in order, and are the ones asked for, cut
-- down to what is above them.
pub new_stage_lem :
    (most high low : ℕ) (policy : DropPolicy)
    → let b = new_stage most high low policy in
      (b.low_watermark ≤ b.high_watermark)
      × (b.high_watermark ≤ b.max_in_flight)
      × (b.max_in_flight ≡ most)
      × (b.high_watermark ≡ min high most)
      × (b.low_watermark ≡ min low (min high most))
unfolding new_stage
new_stage_lem most high low policy =
    (ground arith, ground arith, ground arith, ground arith, ground arith)

-- When the policy lets an item in although the stage is exactly full.
abbrev pub Squeezes : DropPolicy → Bool → Bool → Bool → Type 0
Squeezes never live video key = ⊥
Squeezes drop_oldest live video key = Unit {0}
Squeezes drop_non_keyframe live video key = (live ≡ false) ⊎ (video ≡ false) ⊎ (key ≡ true)

admits :
    (p : DropPolicy) (current most : ℕ) (live video key : Bool)
    → ((if ltb current most then true else admit_at_limit p (leb current most) live video key)
        ≡ true)
      ↔ ((current < most) ⊎ ((current ≡ most) × Squeezes p live video key))
unfolding admit_at_limit
admits never c m l v k = (λ h. inl (ground arith), λ h. ground arith)
admits drop_oldest c m l v k = (λ h. ground arith, λ h. ground arith)
admits drop_non_keyframe c m true true false = (λ h. inl (ground arith), λ h. ground arith)
admits drop_non_keyframe c m false v k = (λ h. ground arith, λ h. ground arith)
admits drop_non_keyframe c m true false k = (λ h. ground arith, λ h. ground arith)
admits drop_non_keyframe c m true true true = (λ h. ground arith, λ h. ground arith)

-- An item is admitted exactly when the stage has room, or is exactly full and the policy lets the
-- item in: always under `drop_oldest`, never under `never`, and under `drop_non_keyframe` unless it
-- is live video that is no keyframe. Over the limit nothing is admitted.
pub should_admit_iff :
    (b : StageBudget) (current : ℕ) (live video key : Bool)
    → (should_admit b current live video key ≡ true) ↔ (
        (current < b.max_in_flight)
        ⊎ ((current ≡ b.max_in_flight) × Squeezes b.drop_policy live video key))
unfolding should_admit
should_admit_iff b current live video key =
    admits b.drop_policy current b.max_in_flight live video key
