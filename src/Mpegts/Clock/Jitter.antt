-- ===== src/Mpegts/Clock/Jitter.antt =====
-- Bounds on the estimated jitter.
use cheetah_media_engine.Prelude.{
  ℕ, ◌+◌, ◌-◌, ◌*◌, ◌^◌, ◌≤◌, ◌<◌, ◌≡◌, ◌⊎◌, inl, inr, subst, refl, sym, min, max, none, some,
  arith, ltb, Bool-cases, ◌&&◌, u64_max, sat_add,
}
use native.Mathlib.Nat.{mul-le-mul_right, div-le_of_le-mul}
use cheetah_media_engine.Mpegts.Clock.{
  PcrClock, feed, pcr_to_ms, next_jitter, spacing, abs, compare_last,
}

-- The mean of old deviations and a new one is at most a bound of both.
pub next_jitter_below :
    (jitter count deviation bound : ℕ)
    → jitter ≤ bound
    → deviation ≤ bound
    → count < u64_max
    → next_jitter jitter count deviation ≤ bound
next_jitter_below jitter count deviation bound hj hd hc =
    let n = min (min (jitter * count) (2 ^ 128 - 1) + min deviation u64_max) (2 ^ 128 - 1) in
    let d = max (sat_add count 1) 1 in
    let e : d ≡ count + 1 = omega arith in
    let grown = mul-le-mul_right {m = jitter} {n = bound} count hj in
    let product : (count + 1) * bound ≡ bound * count + bound = grind arith in
    let small : n ≤ (count + 1) * bound = omega arith in
    let q = div-le_of_le-mul d {m = n} {n = bound} (subst (λ k. n ≤ k * bound) (sym e) small) in
    omega arith

-- Without arrival times a spacing is off by less than a millisecond.
spacing_small :
    (pcr last : ℕ)
    → last < pcr
    → pcr < 2 ^ 63
    → abs (spacing (pcr - last) (pcr_to_ms pcr - pcr_to_ms last)) < 27000
spacing_small pcr last h k = ground arith

-- A clock that was fed without arrival times, by references below `2 ^ 63`.
abbrev pub IsUntimed : PcrClock → Type 0
IsUntimed c =
    (c.jitter < 27000)
    × (((c.last_reference ≡ none) × (c.last_arrival_ms ≡ none))
        ⊎ ((p : ℕ) × (c.last_reference ≡ some p) × (c.last_arrival_ms ≡ some (pcr_to_ms p))))

compare_last_small :
    (c : PcrClock) (pcr p : ℕ)
    → c.jitter < 27000
    → pcr < 2 ^ 63
    → c.sample_count < u64_max
    → (compare_last c pcr (pcr_to_ms pcr) (some p) (some (pcr_to_ms p))).jitter < 27000
compare_last_small c pcr p h k l =
    elim (Bool-cases (ltb p pcr && ltb (pcr_to_ms p) (pcr_to_ms pcr))) [
      | inl later ↦
          let d = spacing_small pcr p (ground arith) k in
          let b =
            next_jitter_below c.jitter c.sample_count
              (abs (spacing (pcr - p) (pcr_to_ms pcr - pcr_to_ms p))) 26999 (omega arith)
              (omega arith) l in
          rw later (omega arith)
      | inr not_later ↦ rw not_later h
    ]

-- A clock that is fed references without arrival times reports a jitter below one millisecond,
-- and stays such a clock.
pub feed-IsUntimed :
    (c : PcrClock) (pcr : ℕ)
    → IsUntimed c
    → pcr < 2 ^ 63
    → c.sample_count < u64_max
    → IsUntimed (feed c pcr none)
unfolding feed
feed-IsUntimed c pcr i h k = elim i.1 [
  | inl e ↦ (rw e.0 i.0, inr (pcr, refl, refl))
  | inr e ↦ (
    subst (λ l. (compare_last c pcr (pcr_to_ms pcr) l c.last_arrival_ms).jitter < 27000) (sym e.1)
        (subst (λ a. (compare_last c pcr (pcr_to_ms pcr) (some e.0) a).jitter < 27000) (sym e.2)
          (compare_last_small c pcr e.0 i.0 h k)),
    inr (pcr, refl, refl),
  )
]
