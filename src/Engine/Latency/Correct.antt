-- ===== src/Engine/Latency/Correct.antt =====
-- How the controller's answer depends on the latency, and what it counts as dropped.
use cheetah_media_engine.Prelude.{
  ℕ, ◌-◌, ◌≤◌, ◌^◌, ◌≡◌, refl, arith, Bool, true, ◌&&◌, Bool-cases, inl, inr, if◌then◌else◌, Option,
}
use cheetah_media_engine.Prelude.Int.{
  ℤ, pos, negsuc, ◌≤ℤ◌, ltb_ℤ, clamp_i64, sat_add_i64, sat_sub_i64, ◌+ℤ◌, ◌-ℤ◌, +ℤ_parts, -ℤ_parts,
}
use cheetah_media_engine.Types.Time.{quotient}
use cheetah_media_engine.Engine.Latency.{
  LatencyController, LatencyBreakdown, total_ms, LatencyAction, no_action, speed_up,
  drop_to_keyframe, jump_to_live, render_gap, mild, update,
}

-- How far an action interferes with playback.
abbrev pub severity : LatencyAction → ℕ
severity no_action = 0
severity (speed_up rate why) = 1
severity (drop_to_keyframe target dropped why) = 2
severity (jump_to_live dropped why) = 3

-- The severity by the tests: above the hard target, above the soft target with a deep buffer, above
-- half the soft target with the render behind.
grade : Bool → Bool → Bool → ℕ
grade hard soft mild = if hard then 3 else if soft then 2 else if mild then 1 else 0

grade_mono :
    (h s m h' s' m' : Bool)
    → (h ≡ true → h' ≡ true)
    → (s ≡ true → s' ≡ true)
    → (m ≡ true → m' ≡ true)
    → grade h s m ≤ grade h' s' m'
unfolding grade
grade_mono h s m h' s' m' p q r = ground arith

ltb_ℤ_mono : (k a b : ℤ) → a ≤ℤ b → ltb_ℤ k a ≡ true → ltb_ℤ k b ≡ true
ltb_ℤ_mono k a b h e = ground arith

&&_mono : (a b t : Bool) → (a ≡ true → b ≡ true) → (a && t) ≡ true → (b && t) ≡ true
&&_mono a b t h k = ground arith

module _ (c : LatencyController) (buffer_ms : ℤ) (demux render : Option ℤ) where
  abbrev is_deep : LatencyBreakdown → Bool
  is_deep b = ltb_ℤ c.target.soft_ms (total_ms b) && ltb_ℤ c.target.soft_ms buffer_ms

  abbrev is_behind : LatencyBreakdown → Bool
  is_behind b =
      ltb_ℤ (quotient c.target.soft_ms 2) (total_ms b)
      && ltb_ℤ (quotient c.target.soft_ms 4) (render_gap demux render)

  severity-update :
      (b : LatencyBreakdown)
      → severity (update c buffer_ms b demux render).1
        ≡ grade (ltb_ℤ c.target.hard_ms (total_ms b)) (is_deep b) (is_behind b)
  unfolding update mild grade
  severity-update b = elim (Bool-cases (ltb_ℤ c.target.hard_ms (total_ms b))) [
    | inl hard ↦ rw hard refl
    | inr calm ↦ elim (Bool-cases (is_deep b)) [
      | inl deep ↦ rw (calm, deep) refl
      | inr shallow ↦ elim (Bool-cases (is_behind b)) [
        | inl behind ↦ rw (calm, shallow, behind) refl
        | inr level ↦ rw (calm, shallow, level) refl
      ]
    ]
  ]

  -- With the buffer, the target and the clocks as they are, a greater latency never gets a milder
  -- answer: nothing, a faster rate, a drop to a keyframe, a jump to the live edge, in this order.
  pub update-monotone :
      (a b : LatencyBreakdown)
      → total_ms a ≤ℤ total_ms b
      → severity (update c buffer_ms a demux render).1
        ≤ severity (update c buffer_ms b demux render).1
  update-monotone a b h =
      rw (severity-update a, severity-update b)
        (grade_mono (ltb_ℤ c.target.hard_ms (total_ms a)) (is_deep a) (is_behind a)
          (ltb_ℤ c.target.hard_ms (total_ms b)) (is_deep b) (is_behind b)
          (ltb_ℤ_mono c.target.hard_ms (total_ms a) (total_ms b) h)
          (&&_mono (ltb_ℤ c.target.soft_ms (total_ms a)) (ltb_ℤ c.target.soft_ms (total_ms b))
            (ltb_ℤ c.target.soft_ms buffer_ms)
            (ltb_ℤ_mono c.target.soft_ms (total_ms a) (total_ms b) h))
          (&&_mono (ltb_ℤ (quotient c.target.soft_ms 2) (total_ms a))
            (ltb_ℤ (quotient c.target.soft_ms 2) (total_ms b))
            (ltb_ℤ (quotient c.target.soft_ms 4) (render_gap demux render))
            (ltb_ℤ_mono (quotient c.target.soft_ms 2) (total_ms a) (total_ms b) h)))

sat_sub_i64_nonneg : (a b : ℤ) → b ≤ℤ a → pos 0 ≤ℤ sat_sub_i64 a b
sat_sub_i64_nonneg a b h = clamp_nonneg (a -ℤ b) (omega (arith, -ℤ_parts a b))
  where
    clamp_nonneg : (x : ℤ) → pos 0 ≤ℤ x → pos 0 ≤ℤ clamp_i64 x
    clamp_nonneg (pos n) h = omega arith
    clamp_nonneg (negsuc n) h = absurd (omega arith)

sat_add_i64_grows : (a d : ℤ) → a ≤ℤ pos (2 ^ 63 - 1) → pos 0 ≤ℤ d → a ≤ℤ sat_add_i64 a d
sat_add_i64_grows a d h k = clamp_above (a +ℤ d) (omega (arith, +ℤ_parts a d))
  where
    clamp_above : (x : ℤ) → a ≤ℤ x → a ≤ℤ clamp_i64 x
    clamp_above (pos n) le = ground arith
    clamp_above (negsuc n) le = ground arith

half_le : (s : ℤ) → pos 0 ≤ℤ s → quotient s 2 ≤ℤ s
half_le (pos n) h = omega arith
half_le (negsuc n) h = absurd (omega arith)

&&_left : (a b : Bool) → (a && b) ≡ true → a ≡ true
&&_left a b h = ground arith

above_le : (k a : ℤ) → ltb_ℤ k a ≡ true → k ≤ℤ a
above_le k a h = ground arith

module _ (c : LatencyController) (buffer_ms : ℤ) (demux render : Option ℤ) where
  -- Where the soft target is not negative and at most the hard one, and the count of dropped
  -- milliseconds is at most the greatest i64, an update never lowers this count.
  pub update-dropped :
      (b : LatencyBreakdown)
      → pos 0 ≤ℤ c.target.soft_ms
      → c.target.soft_ms ≤ℤ c.target.hard_ms
      → c.total_dropped_ms ≤ℤ pos (2 ^ 63 - 1)
      → c.total_dropped_ms ≤ℤ (update c buffer_ms b demux render).0.total_dropped_ms
  unfolding update mild
  update-dropped b zero_soft soft_hard fits =
      elim (Bool-cases (ltb_ℤ c.target.hard_ms (total_ms b))) [
        | inl hard ↦ rw hard (
            sat_add_i64_grows c.total_dropped_ms (sat_sub_i64 (total_ms b) c.target.soft_ms) fits (
              sat_sub_i64_nonneg (total_ms b) c.target.soft_ms
                (omega (arith, above_le c.target.hard_ms (total_ms b) hard, soft_hard))))
        | inr calm ↦ elim (Bool-cases (is_deep c buffer_ms demux render b)) [
          | inl deep ↦
              rw (calm, deep)
                (sat_add_i64_grows c.total_dropped_ms
                  (sat_sub_i64 (total_ms b) (quotient c.target.soft_ms 2)) fits
                  (sat_sub_i64_nonneg (total_ms b) (quotient c.target.soft_ms 2) (
                    omega (
                      arith,
                      above_le c.target.soft_ms (total_ms b) (
                          &&_left (ltb_ℤ c.target.soft_ms (total_ms b))
                            (ltb_ℤ c.target.soft_ms buffer_ms) deep),
                      half_le c.target.soft_ms zero_soft,
                    ))))
          | inr shallow ↦ elim (Bool-cases (is_behind c buffer_ms demux render b)) [
            | inl behind ↦ rw (calm, shallow, behind) (omega arith)
            | inr level ↦ rw (calm, shallow, level) (omega arith)
          ]
        ]
      ]
