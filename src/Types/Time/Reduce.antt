-- ===== src/Types/Time/Reduce.antt =====
-- The greatest common divisor, and the reduction of a timebase to lowest terms.
use cheetah_media_engine.Prelude.{
  ℕ, zero, suc, ◌*◌, ◌/◌, ◌%◌, ◌<◌, ◌≡◌, ◌↔◌, ◌⊎◌, inl, inr, refl, sym, ◌∙◌, subst, arith, ◌||◌,
  ◌==◌, none, some, Bool-cases,
}
use cheetah_media_engine.Types.Time.{TimeBase, gcd_loop, gcd_u64, new_timebase}
use Prim.Native.Nat.{◌∣◌}
use native.Mathlib.Nat.{
  mod-lt, mul_comm, mul_assoc, mul_left_comm, mul-one, mul-zero, dvd_refl, dvd-zero, dvd-mod_iff,
  mul-div_cancel', mul-dvd-mul_left, dvd_of_mul-dvd-mul_left, eq-one_of_dvd-one,
}

gcd_loop_lem : (n d a b : ℕ) → b < n → (d ∣ gcd_loop n a b) ↔ ((d ∣ a) × (d ∣ b))
unfolding gcd_loop
gcd_loop_lem zero d a b h = absurd (omega arith)
gcd_loop_lem (suc n) d a zero h = ((λ p. (p, dvd-zero d)), λ p. p.0)
gcd_loop_lem (suc n) d a (suc b) h =
    let smaller : a % suc b < n = omega (arith, mod-lt a {m = suc b} (omega arith)) in
    let inner = gcd_loop_lem n d (suc b) (a % suc b) smaller in
    (
      (λ p. let q = inner.0 p in ((dvd-mod_iff d q.0).0 q.1, q.0)),
      λ p. inner.1 (p.1, (dvd-mod_iff d p.1).1 p.0),
    )

-- The rounds of the loop are enough: the number that `gcd_u64` returns has as its divisors exactly
-- the common divisors of both numbers.
pub gcd_u64_iff : (a b d : ℕ) → (d ∣ gcd_u64 a b) ↔ ((d ∣ a) × (d ∣ b))
unfolding gcd_u64
gcd_u64_iff a b d = gcd_loop_lem (suc b) d a b (omega arith)

-- What a reduced timebase is to the fraction that it comes from: of the same ratio, without a zero,
-- and with `k` for a common divisor only if `k` is 1.
abbrev pub IsReduced : ℕ → ℕ → ℕ → TimeBase → Type 0
IsReduced k n d t =
    (t.num * d ≡ n * t.den) × (0 < t.num) × (0 < t.den) × (((k ∣ t.num) × (k ∣ t.den)) ↔ (k ≡ 1))

same_ratio : (g x y n d : ℕ) → g * x ≡ n → g * y ≡ d → x * d ≡ n * y
same_ratio g x y n d h k = rw (← h, ← k) (mul_left_comm x g y ∙ sym (mul_assoc g x y))

factor_pos : (g x n : ℕ) → g * x ≡ n → 0 < n → 0 < x
factor_pos g zero n h p = absurd (omega (arith, h, mul-zero g))
factor_pos g (suc x) n h p = omega arith

module _ (n d : ℕ) (n_pos : 0 < n) (d_pos : 0 < d) where
  g_divides : (gcd_u64 n d ∣ n) × (gcd_u64 n d ∣ d)
  g_divides = (gcd_u64_iff n d (gcd_u64 n d)).0 (dvd_refl (gcd_u64 n d))

  times_num : gcd_u64 n d * (n / gcd_u64 n d) ≡ n
  times_num = mul-div_cancel' (gcd_u64 n d) g_divides.0

  times_den : gcd_u64 n d * (d / gcd_u64 n d) ≡ d
  times_den = mul-div_cancel' (gcd_u64 n d) g_divides.1

  gcd_pos : 0 < gcd_u64 n d
  gcd_pos =
      factor_pos (n / gcd_u64 n d) (gcd_u64 n d) n
        (mul_comm (n / gcd_u64 n d) (gcd_u64 n d) ∙ times_num) n_pos

  -- A common divisor `k` of the quotients gives the common divisor `g * k` of the numbers.
  coprime : gcd_u64 (n / gcd_u64 n d) (d / gcd_u64 n d) ≡ 1
  coprime =
      let g = gcd_u64 n d in
      let k = gcd_u64 (n / g) (d / g) in
      let both = (gcd_u64_iff (n / g) (d / g) k).0 (dvd_refl k) in
      let in_num : g * k ∣ n = subst (λ m. g * k ∣ m) times_num (mul-dvd-mul_left k g both.0) in
      let in_den : g * k ∣ d = subst (λ m. g * k ∣ m) times_den (mul-dvd-mul_left k g both.1) in
      let in_g : g * k ∣ g = (gcd_u64_iff n d (g * k)).1 (in_num, in_den) in
      eq-one_of_dvd-one
        (dvd_of_mul-dvd-mul_left k gcd_pos (subst (λ m. g * k ∣ m) (sym (mul-one g)) in_g))

  lowest : (k : ℕ) → ((k ∣ n / gcd_u64 n d) × (k ∣ d / gcd_u64 n d)) ↔ (k ≡ 1)
  lowest k =
      let common = gcd_u64_iff (n / gcd_u64 n d) (d / gcd_u64 n d) k in
      (
        (λ p. eq-one_of_dvd-one (subst (λ m. k ∣ m) coprime (common.1 p))),
        λ e. common.0 (subst (λ m. k ∣ m) (sym coprime) (subst (λ m. m ∣ 1) (sym e) (dvd_refl 1))),
      )

  reduced : (k : ℕ) → IsReduced k n d (record { num = n / gcd_u64 n d; den = d / gcd_u64 n d })
  reduced k = (
    same_ratio (gcd_u64 n d) (n / gcd_u64 n d) (d / gcd_u64 n d) n d times_num times_den,
    factor_pos (gcd_u64 n d) (n / gcd_u64 n d) n times_num n_pos,
    factor_pos (gcd_u64 n d) (d / gcd_u64 n d) d times_den d_pos,
    lowest k,
  )

-- A timebase exists for two numbers unless one is zero. It has their ratio, no zero field, and lowest
-- terms: a number `k` divides both of its fields exactly if `k` is 1.
pub new_timebase-IsReduced :
    (n d k : ℕ)
    → ((new_timebase n d ≡ none) × ((n ≡ 0) ⊎ (d ≡ 0)))
      ⊎ ((t : TimeBase) × (new_timebase n d ≡ some t) × IsReduced k n d t)
unfolding new_timebase
new_timebase-IsReduced n d k = elim (Bool-cases (n == 0 || d == 0)) [
  | inl zeros ↦ rw zeros (inl (refl, ground arith))
  | inr fine ↦ rw fine (
      inr (
        record { num = n / gcd_u64 n d; den = d / gcd_u64 n d },
        refl,
        reduced n d (ground arith) (ground arith) k,
      ))
]
