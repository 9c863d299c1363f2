-- ===== src/Timeline/Clock/Monotone.antt =====
-- The render time does not go back.
use cheetah_media_engine.Prelude.{◌-◌, ◌^◌, ◌≡◌, inl, inr, refl, sym, subst, not, arith, Bool-cases}
use cheetah_media_engine.Prelude.Int.{ℤ, pos, negsuc, ◌+ℤ◌, ◌-ℤ◌, ◌≤ℤ◌, ltb_ℤ, clamp_i64, int_laws}
use cheetah_media_engine.Types.Time.{MediaTime, in_i64, checked_add}
use cheetah_media_engine.Types.Track.{StreamEpoch}
use cheetah_media_engine.Timeline.Clock.{
  MediaClock, Timed, ok, err, ◌>>=◌, or_overflow, update, raw_ticks, raw_us, place_raw, not_before,
  first_base, last_clock, base_after, max_ℤ, epoch_state, unwrap_ticks, recorded, eq_ℤ,
}

-- What an update may return: an error, or a time and a clock that stand at `last` or later.
abbrev pub IsAfter : ℤ → Timed (MediaClock × ℤ) → Type 0
IsAfter last (ok (c, time)) =
    (last ≤ℤ time) × (last ≤ℤ c.last_overall_clock_us) × (time ≤ℤ c.last_overall_clock_us)
IsAfter last (err e) = last ≤ℤ last

abbrev i64_max : ℤ
i64_max = pos (2 ^ 63 - 1)

clamp_after : (d : ℤ) → d ≤ℤ i64_max → d ≤ℤ clamp_i64 (clamp_i64 d +ℤ pos 1)
unfolding ◌+ℤ◌
clamp_after (pos n) h = ground arith
clamp_after (negsuc n) h = ground arith

-- The base that is chosen after `last` keeps a time there.
base_after-IsAfter : (last raw : ℤ) → last -ℤ raw ≤ℤ i64_max → last ≤ℤ base_after last raw +ℤ raw
base_after-IsAfter last raw h = omega (int_laws, clamp_after (last -ℤ raw) h)

max_ℤ-left : (a b : ℤ) → a ≤ℤ max_ℤ a b
max_ℤ-left a b = elim (Bool-cases (ltb_ℤ b a)) [
  | inl e ↦ rw e (omega arith)
  | inr e ↦ rw e (ground arith)
]

max_ℤ-right : (a b : ℤ) → b ≤ℤ max_ℤ a b
max_ℤ-right a b = elim (Bool-cases (ltb_ℤ b a)) [
  | inl e ↦ rw e (ground arith)
  | inr e ↦ rw e (omega arith)
]

-- What was placed, whatever else is recorded of it.
module _ (last raw : ℤ) (k : ℤ × ℤ → MediaClock × ℤ) (time_kept : (p : ℤ × ℤ) → (k p).1 ≡ p.1)
    (max_kept : (p : ℤ × ℤ) → (k p).0.last_overall_clock_us ≡ max_ℤ p.1 last)
    (room : last -ℤ raw ≤ℤ i64_max) where
  kept : (p : ℤ × ℤ) → last ≤ℤ p.1 → IsAfter last (ok (k p))
  kept p h = (
    subst (λ t. last ≤ℤ t) (sym (time_kept p)) h,
    subst (λ m. last ≤ℤ m) (sym (max_kept p)) (max_ℤ-right p.1 last),
    subst (λ m. (k p).1 ≤ℤ m) (sym (max_kept p))
        (subst (λ t. t ≤ℤ max_ℤ p.1 last) (sym (time_kept p)) (max_ℤ-left p.1 last)),
  )

  moved : IsAfter last (
      (or_overflow (checked_add (base_after last raw) raw) >>= λ t. ok (base_after last raw, t))
      >>= λ p. ok (k p))
  unfolding checked_add
  moved = elim (Bool-cases (in_i64 (base_after last raw +ℤ raw))) [
    | inl e ↦
        rw e (
          kept (base_after last raw, base_after last raw +ℤ raw) (base_after-IsAfter last raw room))
    | inr e ↦ rw e (omega arith)
  ]

  placed : (x : Timed (ℤ × ℤ)) → IsAfter last ((x >>= not_before raw last) >>= λ p. ok (k p))
  placed (err e) = omega arith
  placed (ok (base, time)) = elim (Bool-cases (ltb_ℤ time last)) [
    | inl e ↦ rw e moved
    | inr e ↦ rw e (kept (base, time) (ground arith))
  ]

-- The render time of a sample is never before the latest one that the clock gave, in any epoch,
-- unless the distance from the sample to that time is not an i64.
pub update-IsAfter :
    (c : MediaClock) (time : MediaTime) (epoch : StreamEpoch) (source raw : ℤ)
    → raw_ticks time ≡ ok source
    → raw_us c time epoch source ≡ ok raw
    → c.last_overall_clock_us -ℤ raw ≤ℤ i64_max
    → IsAfter c.last_overall_clock_us (update c time epoch)
unfolding update
update-IsAfter c time epoch source raw e f room =
    let existing = epoch_state c.epochs epoch in
    let ticks = unwrap_ticks existing c.wrap_bits source in
    subst
      (λ r.
        IsAfter c.last_overall_clock_us
          (r >>= λ source. raw_us c time epoch source >>= λ raw. place_raw c epoch source raw))
      (sym e)
      (subst (λ r. IsAfter c.last_overall_clock_us (r >>= place_raw c epoch source)) (sym f)
        (placed c.last_overall_clock_us raw
          (λ p. (recorded c epoch existing ticks raw (not (eq_ℤ ticks source)) p, p.1)) (λ p. refl)
          (λ p. refl) room
          (or_overflow (checked_add (first_base c existing raw) raw) >>= λ time.
            not_before raw (last_clock existing) (first_base c existing raw, time))))
