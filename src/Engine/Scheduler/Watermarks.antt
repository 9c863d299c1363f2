-- ===== src/Engine/Scheduler/Watermarks.antt =====
-- The watermarks of a queue: hysteresis between a low and a high level.
use cheetah_media_engine.Prelude.{
  ℕ, ◌^◌, ◌≤◌, ◌<◌, ◌≡◌, refl, arith, Bool, true, false, not, ◌&&◌, ◌||◌, List, [], ◌∷◌, length,
  Bool-cases, inl, inr, ltb, leb, ◌==◌,
}
use cheetah_media_engine.Engine.Scheduler.Bounded.{
  with_watermarks, BoundedQueue, poll_queue, SchedulerEvent, high_watermark, low_watermark,
}

-- For a positive capacity below 2^63, the derived marks stand apart and within the capacity.
pub with_watermarks-apart :
    (c : ℕ)
    → 0 < c
    → c < 2 ^ 63
    → ((with_watermarks c).low < (with_watermarks c).high) × ((with_watermarks c).high ≤ c)
unfolding with_watermarks
with_watermarks-apart c h k = ground arith

not_both : (low high n : ℕ) → low < high → leb high n ≡ true → leb n low ≡ false
not_both low high n h k = ground arith

ltb-leb : (low n : ℕ) → ltb low n ≡ not (leb n low)
ltb-leb low n = ground arith

module _ {ℓ} {T : Type ℓ} where
  -- The flag that a poll leaves: on from the high mark, off up to the low mark, unchanged between.
  abbrev pub over : BoundedQueue T → Bool
  over q = leb q.config.high (length q.items) || (q.over_high && ltb q.config.low (length q.items))

  -- The event that tells a change of the flag.
  abbrev pub change : BoundedQueue T → Bool → Bool → List SchedulerEvent
  change q false true = high_watermark q.name (length q.items) ∷ []
  change q true false = low_watermark q.name (length q.items) ∷ []
  change q a b = []

  with_flag : BoundedQueue T → Bool → BoundedQueue T
  with_flag q flag = record q { over_high = flag }

  poll_with_flag :
      (q : BoundedQueue T) (flag : Bool)
      → (q.config.capacity == 0) ≡ false
      → q.config.low < q.config.high
      → let f = with_flag q flag in poll_queue f ≡ (with_flag q (over f), change q flag (over f))
  unfolding poll_queue with_flag
  poll_with_flag q true some_fit k = elim (Bool-cases (leb q.config.high (length q.items))) [
    | inl high ↦
        rw (some_fit, high, not_both q.config.low q.config.high (length q.items) k high) refl
    | inr below ↦ elim (Bool-cases (leb (length q.items) q.config.low)) [
      | inl low ↦ rw (some_fit, below, low, ltb-leb q.config.low (length q.items)) (rw low refl)
      | inr above ↦
          rw (some_fit, below, above, ltb-leb q.config.low (length q.items)) (rw above refl)
    ]
  ]
  poll_with_flag q false some_fit k = elim (Bool-cases (leb q.config.high (length q.items))) [
    | inl high ↦
        rw (some_fit, high, not_both q.config.low q.config.high (length q.items) k high) refl
    | inr below ↦ rw (some_fit, below) refl
  ]

  -- A poll of a queue of positive capacity whose low mark is below its high mark switches the flag
  -- with hysteresis: on from the high mark, off up to the low mark, unchanged between. It tells of
  -- a change by exactly one event, of no change by none, and changes nothing else.
  pub poll_queue_lem :
      (q : BoundedQueue T)
      → 0 < q.config.capacity
      → q.config.low < q.config.high
      → poll_queue q ≡ (record q { over_high = over q }, change q q.over_high (over q))
  unfolding with_flag
  poll_queue_lem q h k = poll_with_flag q q.over_high (ground arith) k
