-- ===== src/Types/Time/Rescale.antt =====
-- Rescaling between timebases, and shifting media times.
use cheetah_media_engine.Prelude.{
  ℕ, zero, suc, ◌+◌, ◌*◌, ◌/◌, ◌^◌, ◌≤◌, ◌<◌, ◌≡◌, refl, sym, ap, ◌∙◌, subst, and_then, map_option,
  arith, Bool, true, ◌&&◌, ltb, ◌==◌, Bool-cases, Option, Option-cases, none, some, inl, inr,
}
use cheetah_media_engine.Prelude.Int.{ℤ, pos, negsuc, pos_part, neg_part, ◌+ℤ◌, +ℤ_cancel}
use cheetah_media_engine.Types.Error.{ok}
use cheetah_media_engine.Types.Time.{
  TimeBase, MediaTime, in_i64, in_i128, neg, times, quotient, checked_times, numerator,
  checked_quotient, rescale_i64, checked_add, checked_sub, time_checked_add, time_checked_sub,
  shift_field,
}
use native.Mathlib.Nat.{mod-add-div, mod-lt, zero-div}

abbrev pub unknown_or_i64 : Option ℤ → Bool
unknown_or_i64 none = true
unknown_or_i64 (some v) = in_i64 v

-- `r` is `v * n / d`, truncated toward zero, in both parts of an integer.
abbrev pub Truncates : ℤ → ℕ → ℕ → ℤ → Type 0
Truncates v n d r =
    (pos_part r * d ≤ pos_part v * n)
    × (pos_part v * n < (pos_part r + 1) * d)
    × (neg_part r * d ≤ neg_part v * n)
    × (neg_part v * n < (neg_part r + 1) * d)

neg_parts : (k : ℕ) → (pos_part (neg k) ≡ 0) × (neg_part (neg k) ≡ k)
neg_parts zero = (refl, refl)
neg_parts (suc k) = (refl, refl)

div_bounds : (a d : ℕ) → 0 < d → (a / d * d ≤ a) × (a < (a / d + 1) * d)
div_bounds a d h = omega (arith, mod-add-div a d, mod-lt a h)

times_parts :
    (v : ℤ) (k : ℕ)
    → (pos_part (times v k) ≡ pos_part v * k) × (neg_part (times v k) ≡ neg_part v * k)
times_parts (pos n) k = (refl, omega arith)
times_parts (negsuc n) k = omega (arith, neg_parts ((n + 1) * k))

quotient_parts :
    (v : ℤ) (d : ℕ)
    → (pos_part (quotient v d) ≡ pos_part v / d) × (neg_part (quotient v d) ≡ neg_part v / d)
quotient_parts (pos n) d = (refl, sym (zero-div d))
quotient_parts (negsuc n) d =
    let p = neg_parts ((n + 1) / d) in
    (p.0 ∙ sym (zero-div d), p.1 ∙ ap (λ (k : ℕ). k / d) (omega arith))

quotient-Truncates :
    (v : ℤ) (a b d : ℕ) → 0 < d → Truncates v (a * b) d (quotient (times (times v a) b) d)
quotient-Truncates v a b d h =
    rw
      (
        (quotient_parts (times (times v a) b) d).0,
        (quotient_parts (times (times v a) b) d).1,
        (times_parts (times v a) b).0,
        (times_parts (times v a) b).1,
        (times_parts v a).0,
        (times_parts v a).1,
      )
      (omega (arith, div_bounds (pos_part v * a * b) d h, div_bounds (neg_part v * a * b) d h))

checked_times-eq_some : (v : ℤ) (k : ℕ) (p : ℤ) → checked_times v k ≡ some p → p ≡ times v k
unfolding checked_times
checked_times-eq_some v k p e = elim (Bool-cases (in_i128 (times v k))) [
  | inl a ↦ cc (rw a at e)
  | inr a ↦ cc (rw a at e)
]

numerator-eq_some : (v : ℤ) (a b : ℕ) (n : ℤ) → numerator v a b ≡ some n → n ≡ times (times v a) b
unfolding numerator
numerator-eq_some v a b n e = elim (Option-cases (checked_times v a)) [
  | inl h ↦ cc (rw (h, and_then) at e)
  | inr (w, h) ↦
      checked_times-eq_some w b n (rw (h, and_then) at e)
      ∙ ap (λ (x : ℤ). times x b) (checked_times-eq_some v a w h)
]

checked_quotient-eq_ok :
    (o : Option ℤ) (d : ℕ) (r : ℤ)
    → checked_quotient o d ≡ ok r
    → (n : ℤ) × (o ≡ some n) × (r ≡ quotient n d) × (in_i64 r ≡ true)
unfolding checked_quotient
checked_quotient-eq_ok none d r e = cc
checked_quotient-eq_ok (some n) d r e = elim (Bool-cases (ltb d (2 ^ 127))) [
  | inl a ↦ elim (Bool-cases (in_i64 (quotient n d))) [
    | inl b ↦ let q : r ≡ quotient n d = cc (rw (a, b) at e) in (n, refl, q, rw q b)
    | inr b ↦ cc (rw (a, b) at e)
  ]
  | inr a ↦ cc (rw a at e)
]

same-Truncates :
    (self target : TimeBase) (v : ℤ)
    → 0 < self.den
    → 0 < target.num
    → (self.num == target.num && self.den == target.den) ≡ true
    → Truncates v (self.num * target.den) (self.den * target.num) v
same-Truncates self target v hd hn h =
    let p : self.num ≡ target.num = ground arith in
    let q : self.den ≡ target.den = ground arith in rw (p, q) (grind arith)

mul_pos : {a b : ℕ} → 0 < a → 0 < b → 0 < a * b
mul_pos {a} {b} h k = grind arith

-- A rescaled timestamp is the exact product truncated toward zero, and lies in the i64 range.
-- (The timebases have no zero field, and the timestamp is an i64.)
pub rescale_i64-Truncates :
    (self target : TimeBase) (v r : ℤ)
    → 0 < self.den
    → 0 < target.num
    → in_i64 v ≡ true
    → rescale_i64 self v target ≡ ok r
    → Truncates v (self.num * target.den) (self.den * target.num) r × (in_i64 r ≡ true)
unfolding rescale_i64
rescale_i64-Truncates self target v r hd hn hv e =
    elim (Bool-cases (self.num == target.num && self.den == target.den)) [
      | inl same ↦
          let q : v ≡ r = cc (rw same at e) in
          (subst (Truncates v _ _) q (same-Truncates self target v hd hn same), rw (← q) hv)
      | inr other ↦
          let (n, en, er, inside) = checked_quotient-eq_ok _ _ r (rw other at e) in
          (
            rw (er, numerator-eq_some v self.num target.den n en)
                (quotient-Truncates v self.num target.den (self.den * target.num) (mul_pos hd hn)),
            inside,
          )
    ]

shift_field_back :
    (d : ℤ) (o p : Option ℤ)
    → unknown_or_i64 o ≡ true
    → shift_field (λ v. checked_add v d) o ≡ some p
    → shift_field (λ v. checked_sub v d) p ≡ some o
unfolding checked_add checked_sub
shift_field_back d none p h e = elim (Option-cases p) [ inl q ↦ rw q | inr (w, q) ↦ cc (q, e) ]
shift_field_back d (some v) p h e = elim (Bool-cases (in_i64 (v +ℤ d))) [
  | inl a ↦ let q : p ≡ some (v +ℤ d) = cc (rw (a, map_option) at e) in rw (q, +ℤ_cancel v d, h)
  | inr a ↦ cc (rw (a, map_option) at e)
]

-- A media time shifted forward without overflow is shifted back by the same offset, where its
-- own timestamps are unknown or in the i64 range.
pub time_checked_sub-time_checked_add :
    (t u : MediaTime) (d : ℤ)
    → unknown_or_i64 t.pts ≡ true
    → unknown_or_i64 t.dts ≡ true
    → time_checked_add t d ≡ some u
    → time_checked_sub u d ≡ some t
unfolding time_checked_add time_checked_sub
time_checked_sub-time_checked_add t u d hp hd e =
    elim (Option-cases (shift_field (λ v. checked_add v d) t.pts)) [
      | inl a ↦ cc (rw (a, and_then) at e)
      | inr (p, a) ↦ elim (Option-cases (shift_field (λ v. checked_add v d) t.dts)) [
        | inl b ↦ cc (rw (a, b, and_then, map_option) at e)
        | inr (q, b) ↦
            let r : record t { pts = p; dts = q } ≡ u = cc (rw (a, b, and_then, map_option) at e) in
            subst (λ w. time_checked_sub w d ≡ some t) r
              (rw (
                shift_field_back d t.pts p hp a,
                shift_field_back d t.dts q hd b,
                and_then,
                map_option,
              ))
      ]
    ]
