-- ===== src/Types/Time/Unwrap.antt =====
-- `Timestamp::unwrapped_around`: the unwrapped value keeps the low bits of the new timestamp and
-- lies within half a turn of the previous one.
use cheetah_media_engine.Prelude.{
  ℕ, zero, suc, ◌+◌, ◌-◌, ◌*◌, ◌/◌, ◌%◌, ◌^◌, ◌≤◌, ◌<◌, ◌≡◌, refl, sym, ap, ◌∙◌, subst, arith,
  pow_two_pos, true, ltb, leb, Bool-cases, inl, inr,
}
use cheetah_media_engine.Prelude.Int.{ℤ, pos, negsuc, pos_part, neg_part, ◌+ℤ◌, ◌≤ℤ◌, int_laws}
use cheetah_media_engine.Types.Time.{in_i64, neg, low_part, adjust, unwrapped, unwrapped_around}
use native.Mathlib.Nat.{
  pow-suc, mod-add-div, mod-lt, add-mul-mod_self_left, mod-eq_of_lt, mod-eq-sub-mod, mul-mod_right,
  pow-le-pow_right,
}
use native.Mathlib.Decide.{dec_lt}

-- The two halves of a turn make a turn.
turn : (b : ℕ) → 1 ≤ b → 2 ^ b ≡ 2 * 2 ^ (b - 1)
turn zero h = absurd (omega arith)
turn (suc b) h = let e : suc b - 1 ≡ b = omega arith in rw e (omega (arith, pow-suc 2 b))

low_part-lt : (z : ℤ) (m : ℕ) → 0 < m → low_part z m < m
low_part-lt (pos n) m h = omega arith
low_part-lt (negsuc n) m h = omega arith

-- An integer is its low part and a number of whole turns, of one sign or the other.
record Turns (z : ℤ) (m l : ℕ) : Type 0 where
  forward : ℕ
  back : ℕ
  count : pos_part z + m * back ≡ neg_part z + l + m * forward

low_part-Turns : (z : ℤ) (m : ℕ) → 0 < m → Turns z m (low_part z m)
low_part-Turns (pos n) m h = record {
  forward = n / m;
  back = 0;
  count = omega (arith, mod-add-div n m);
}
low_part-Turns (negsuc n) m h = record {
  forward = 0;
  back = n / m + 1;
  count = omega (arith, mod-add-div n m, mod-lt n h);
}

low_part_unique : (z : ℤ) (m l : ℕ) → l < m → Turns z m l → low_part z m ≡ l
low_part_unique (pos n) m l h t =
    sym (add-mul-mod_self_left n m t.back)
    ∙ ap (λ (k : ℕ). k % m) (omega (arith, t.count))
    ∙ add-mul-mod_self_left l m t.forward
    ∙ mod-eq_of_lt h
low_part_unique (negsuc n) m l h t = elim (dec_lt (n % m + l + 1) m) [
  | yes p ↦ absurd (omega (arith, whole, mod-eq_of_lt p))
  | no p ↦ omega (
    arith,
    whole,
    mod-lt n {m = m} (omega arith),
    mod-eq-sub-mod {n = n % m + l + 1} {m = m} (omega arith),
    mod-eq_of_lt {n = n % m + l + 1 - m} {m = m} (omega (arith, mod-lt n {m = m} (omega arith))),
  )
]
  where
    whole : (n % m + l + 1) % m ≡ 0
    whole =
        sym (add-mul-mod_self_left (n % m + l + 1) m (n / m + t.forward))
        ∙ ap (λ (k : ℕ). k % m) (omega (arith, t.count, mod-add-div n m))
        ∙ mul-mod_right m t.back

-- The distance of the unwrapped value from the previous one is at most half a turn.
adjust_near :
    (low prev_low half : ℕ)
    → low < 2 * half
    → prev_low < 2 * half
    → (pos_part (adjust low prev_low half) + low
        ≤ neg_part (adjust low prev_low half) + prev_low + half)
      × (neg_part (adjust low prev_low half) + prev_low
          ≤ pos_part (adjust low prev_low half) + low + half)
unfolding adjust
adjust_near low prev_low half h k = ground arith

-- The correction is a whole turn or none.
record Whole (a : ℤ) (m : ℕ) : Type 0 where
  forward : ℕ
  back : ℕ
  count : pos_part a + m * back ≡ neg_part a + m * forward

neg_parts : (k : ℕ) → (pos_part (neg k) ≡ 0) × (neg_part (neg k) ≡ k)
neg_parts zero = (refl, refl)
neg_parts (suc k) = (refl, refl)

adjust-Whole : (low prev_low half : ℕ) → Whole (adjust low prev_low half) (2 * half)
unfolding adjust
adjust-Whole low prev_low half = elim (Bool-cases (ltb (prev_low + half) low)) [
  | inl up ↦ rw up (record { forward = 0; back = 1; count = omega (arith, neg_parts (2 * half)) })
  | inr e ↦ elim (Bool-cases (ltb (low + half) prev_low)) [
    | inl down ↦ rw (e, down) (record { forward = 1; back = 0; count = omega arith })
    | inr f ↦ rw (e, f) (record { forward = 0; back = 0; count = omega arith })
  ]
]

module _ (value prev : ℤ) (bits : ℕ) (h : 1 ≤ bits) where
  lows : (low_part value (2 ^ bits) < 2 ^ bits) × (low_part prev (2 ^ bits) < 2 ^ bits)
  lows = (
    low_part-lt value (2 ^ bits) (pow_two_pos bits),
    low_part-lt prev (2 ^ bits) (pow_two_pos bits),
  )

  near :
      (unwrapped value prev bits ≤ℤ prev +ℤ pos (2 ^ (bits - 1)))
      × (prev ≤ℤ unwrapped value prev bits +ℤ pos (2 ^ (bits - 1)))
  unfolding unwrapped
  near =
      let t =
        adjust_near (low_part value (2 ^ bits)) (low_part prev (2 ^ bits)) (2 ^ (bits - 1))
          (omega (arith, turn bits h, lows)) (omega (arith, turn bits h, lows)) in
      (omega (int_laws, t), omega (int_laws, t))

  Whole-turns :
      Whole
        (adjust (low_part value (2 ^ bits)) (low_part prev (2 ^ bits)) (2 ^ (bits - 1)))
        (2 ^ bits)
  Whole-turns =
      subst (Whole _) (sym (turn bits h))
        (adjust-Whole (low_part value (2 ^ bits)) (low_part prev (2 ^ bits)) (2 ^ (bits - 1)))

  low_part-unwrapped : low_part (unwrapped value prev bits) (2 ^ bits) ≡ low_part value (2 ^ bits)
  unfolding unwrapped
  low_part-unwrapped =
      let p = low_part-Turns prev (2 ^ bits) (pow_two_pos bits) in
      let w = Whole-turns in
      low_part_unique (unwrapped value prev bits) (2 ^ bits) (low_part value (2 ^ bits)) (lows.0)
        (record {
          forward = p.forward + w.forward;
          back = p.back + w.back;
          count = omega (int_laws, p.count, w.count);
        })

fits :
    (r : ℤ) → pos_part r < 2 ^ 63 + neg_part r → neg_part r < 2 ^ 63 + pos_part r → in_i64 r ≡ true
fits (pos n) h k = ground arith
fits (negsuc n) h k = ground arith

-- What the doc comment of `unwrapped_around` promises of a result `r`.
abbrev pub Unwraps : ℤ → ℤ → ℕ → ℤ → Type 0
Unwraps value prev bits r =
    (r ≤ℤ prev +ℤ pos (2 ^ (bits - 1)))
    × (prev ≤ℤ r +ℤ pos (2 ^ (bits - 1)))
    × (low_part r (2 ^ bits) ≡ low_part value (2 ^ bits))

-- For a wrap width of 1 to 62 bits and a previous timestamp between -2^62 and 2^62, the unwrapped
-- timestamp keeps the low bits of the new one and differs from the previous one by at most half
-- of a wrap.
pub unwrapped_around-Unwraps :
    (value prev : ℤ) (bits : ℕ)
    → 1 ≤ bits
    → bits ≤ 62
    → pos_part prev ≤ 2 ^ 62
    → neg_part prev ≤ 2 ^ 62
    → Unwraps value prev bits (unwrapped_around value prev bits)
unfolding unwrapped_around
unwrapped_around-Unwraps value prev bits lo hi up down =
    let n = near value prev bits lo in
    let half : 2 ^ (bits - 1) ≤ 2 ^ 61 =
      pow-le-pow_right {n = 2} (omega arith) {j = 61} (omega arith) in
    let inside : in_i64 (unwrapped value prev bits) ≡ true =
      fits (unwrapped value prev bits) (omega (int_laws, n, half)) (omega (int_laws, n, half)) in
    let a : leb 1 bits ≡ true = ground arith in
    let b : leb bits 62 ≡ true = ground arith in
    rw (a, b, inside) (n.0, n.1, low_part-unwrapped value prev bits lo)
