-- ===== src/Prelude/Words.antt =====
-- Machine words as native numbers: the bounds of u32, u64 and usize (64 bits), and saturating
-- addition.
use Prim.Native.Nat.{ℕ, zero, suc, ◌+◌, ◌-◌, ◌*◌, ◌^◌, ◌≤◌, min}
use mathlib.Core.Path.{◌≡◌}
use native.Mathlib.Nat.{pow-suc}
use native.Mathlib.Omega.{arith}

abbrev pub u64_max : ℕ
u64_max = 2 ^ 64 - 1

abbrev pub u32_max : ℕ
u32_max = 2 ^ 32 - 1

-- `u64::saturating_add`, and `usize::saturating_add` on a 64-bit target.
abbrev pub sat_add : ℕ → ℕ → ℕ
sat_add a b = min (a + b) u64_max

abbrev pub sat_add32 : ℕ → ℕ → ℕ
sat_add32 a b = min (a + b) u32_max

abbrev pub sat_mul : ℕ → ℕ → ℕ
sat_mul a b = min (a * b) u64_max

pub sat_add_assoc : (a b c : ℕ) → sat_add (sat_add a b) c ≡ sat_add a (sat_add b c)
sat_add_assoc a b c = omega arith

pub sat_add_comm : (a b : ℕ) → sat_add a b ≡ sat_add b a
sat_add_comm a b = omega arith

pub pow_two_pos : (b : ℕ) → 1 ≤ 2 ^ b
pow_two_pos zero = omega arith
pow_two_pos (suc b) = omega (arith, pow_two_pos b, pow-suc 2 b)
