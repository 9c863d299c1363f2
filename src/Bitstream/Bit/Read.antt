-- ===== src/Bitstream/Bit/Read.antt =====
-- What a read of the cursor returns: the number that the next bits write.
use cheetah_media_engine.Prelude.{
  ℕ, zero, get_or, suc, inl, inr, ◌+◌, ◌-◌, ◌*◌, ◌/◌, ◌%◌, ◌^◌, ◌≤◌, ◌<◌, ◌≡◌, ◌⊎◌, refl, sym, ap,
  ◌∙◌, min, List, false, length, take, drop, arith, ltb, ◌==◌, Bool-cases, length-drop, drop-drop,
  pow_two_pos,
}
use native.Mathlib.Nat.{mul-le-mul_right, mod-lt, mod-eq_of_lt, pow-le-pow_right}
use cheetah_media_engine.Bitstream.Bit.{
  BitCursor, end_of_stream, overflow, Outcome, ok, err, advance, bits_of_byte, read_loop, read_bits,
  remaining_bits,
}
use cheetah_media_engine.Bitstream.Bit.Stream.{
  value_from, value, all_bits, ahead, length-all_bits, pow_add, value_from-take, take-ahead,
  ahead-advance,
}

-- The read `o` returns `a` and leaves a cursor with `rest` ahead.
abbrev pub Reads {ℓ} : {A : Type ℓ} → Outcome A → A → List ℕ → Type ℓ
Reads o a rest = (c : BitCursor) × (o ≡ ok a c) × (ahead c ≡ rest) × (c.bit < 8)

pub length-ahead : (c : BitCursor) → c.bit < 8 → length (ahead c) ≡ remaining_bits c
unfolding remaining_bits
length-ahead c h = ground (
  arith,
  length-drop c.bit (all_bits (drop c.index c.buf)),
  length-all_bits (drop c.index c.buf),
  length-drop c.index c.buf,
)

-- There is a byte under the cursor if a bit is ahead.
there : (c : BitCursor) → c.bit < 8 → 0 < length (ahead c) → c.index < length c.buf
unfolding remaining_bits
there c h more = ground (arith, length-ahead c h)

-- No bit is lost above bit 63.
no_overflow :
    (v k n x : ℕ)
    → v < 2 ^ k
    → k + n ≤ 64
    → (v * 2 ^ n % 2 ^ 64 ≡ v * 2 ^ n) × (v * 2 ^ n + x % 2 ^ n < 2 ^ (k + n))
no_overflow v k n x h le =
    let sum : v * 2 ^ n + x % 2 ^ n < 2 ^ (k + n) = grind (
      arith,
      pow_add (k + n) k n refl,
      mod-lt x (pow_two_pos n),
      mul-le-mul_right {m = v + 1} {n = 2 ^ k} (2 ^ n) (omega arith),
    ) in
    let small = pow-le-pow_right {n = 2} (omega arith) le in (mod-eq_of_lt (omega arith), sum)

advance-in_byte : (c : BitCursor) (n : ℕ) → c.bit < 8 → (advance c n).bit < 8
advance-in_byte c n h = ground arith

read_loop-Reads :
    (fuel : ℕ) (c : BitCursor) (v k needed : ℕ)
    → needed ≤ fuel
    → needed ≤ length (ahead c)
    → c.bit < 8
    → v < 2 ^ k
    → k + needed ≤ 64
    → Reads
        (read_loop fuel c v needed)
        (value_from v (take needed (ahead c)))
        (drop needed (ahead c))
unfolding read_loop
read_loop-Reads fuel c v k zero f l b lt le = (c, refl, refl, b)
read_loop-Reads zero c v k (suc m) f l b lt le = absurd (omega arith)
read_loop-Reads (suc fuel) c v k (suc m) f l b lt le =
    let n = min (suc m) (8 - c.bit) in
    let here = there c b (omega arith) in
    let fits = no_overflow v k n (get_or c.buf c.index 0 / 2 ^ (8 - c.bit - n)) lt (omega arith) in
    let v' = v * 2 ^ n % 2 ^ 64 + bits_of_byte c n in
    let e : v' ≡ value_from v (take n (ahead c)) =
      ap (λ (x : ℕ). x + bits_of_byte c n) fits.0 ∙ sym (take-ahead c b here n v (omega arith)) in
    let moved = ahead-advance c b here n (omega arith) in
    let r =
      read_loop-Reads fuel (advance c n) v' (k + n) (suc m - n) (omega arith)
        (omega (arith, ap length moved, length-drop n (ahead c))) (advance-in_byte c n b)
        (omega (arith, fits.0, fits.1)) (omega arith) in
    (
      r.0,
      r.1
          ∙ ap (λ x. ok x r.0)
              (rw (moved, e)
                (sym (value_from-take n (suc m - n) (suc m) v (ahead c) (omega arith)))),
      r.2 ∙ rw moved (sym (drop-drop n (suc m - n) (suc m) (ahead c) (omega arith))),
      r.3,
    )

some_bits : (m : ℕ) → (suc m == 0) ≡ false
some_bits m = ground arith

-- A read of `n` bits returns the number that the next `n` bits write and leaves the rest ahead.
-- Without effect it refuses more than 64 bits, and else more bits than are left.
pub read_bits-Reads :
    (c : BitCursor) (n : ℕ)
    → c.bit < 8
    → (n ≤ 64
        × n ≤ remaining_bits c
        × Reads (read_bits c n) (value (take n (ahead c))) (drop n (ahead c)))
      ⊎ (64 < n × (read_bits c n ≡ err overflow c))
      ⊎ (n ≤ 64 × remaining_bits c < n × (read_bits c n ≡ err end_of_stream c))
unfolding read_bits
read_bits-Reads c zero b = inl (omega arith, omega arith, (c, refl, refl, b))
read_bits-Reads c (suc m) b = elim (Bool-cases (ltb 64 (suc m))) [
  | inl wide ↦ inr (inl (ground arith, rw (some_bits m, wide) refl))
  | inr narrow ↦ elim (Bool-cases (ltb (remaining_bits c) (suc m))) [
    | inl few ↦ inr (inr (ground arith, ground arith, rw (some_bits m, narrow, few) refl))
    | inr enough ↦ inl (
      ground arith,
      ground arith,
      rw (some_bits m, narrow, enough)
          (read_loop-Reads (suc m) c 0 0 (suc m) (omega arith) (ground (arith, length-ahead c b)) b
            (omega arith) (ground arith)),
    )
  ]
]
