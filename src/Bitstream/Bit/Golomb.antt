-- ===== src/Bitstream/Bit/Golomb.antt =====
-- Exp-Golomb codes: the codes that an encoder writes, read back.
use cheetah_media_engine.Prelude.{
  ℕ, zero, suc, ◌+◌, ◌-◌, ◌/◌, ◌%◌, ◌^◌, ◌≤◌, ◌<◌, ◌≡◌, inl, inr, Bool-cases, leb, refl, sym, ap,
  ◌∙◌, subst, append_assoc, List, [], ◌∷◌, ◌++◌, Bool, true, false, length, take, drop, arith, ltb,
  ◌==◌, if◌then◌else◌, replicate, length-append, take-exact, drop-exact,
}
use native.Mathlib.Nat.{mod-eq_of_lt, pow-le-pow_right, zero-add}
use cheetah_media_engine.Prelude.Int.{ℤ, pos, sub_ℕ}
use cheetah_media_engine.Bitstream.Bit.{
  BitCursor, Outcome, ue_rest, se_rest, invalid_bits, ok, err, ◌>>=◌, read_bits, read_bool,
  leading_zeros, zeros_round, read_ue, read_se,
}
use cheetah_media_engine.Bitstream.Bit.Stream.{bits, value, ahead, value_from-bits, length-bits}
use cheetah_media_engine.Bitstream.Bit.Read.{Reads, read_bits-Reads, length-ahead}

-- The code of `2 ^ k - 1 + x` for `x < 2 ^ k`: `k` zeros, a one, and the `k` bits of `x`.
abbrev pub golomb : ℕ → ℕ → List ℕ
golomb k x = replicate k 0 ++ 1 ∷ bits k x

abbrev pub one_at : Bool → ℕ
one_at true = 1
one_at false = 0

-- A read with enough bits ahead.
enough_bits :
    (c : BitCursor) (n : ℕ) (xs ys : List ℕ)
    → c.bit < 8
    → n ≤ 64
    → length xs ≡ n
    → ahead c ≡ xs ++ ys
    → Reads (read_bits c n) (value xs) ys
enough_bits c n xs ys b le len e = elim (read_bits-Reads c n b) [
  | inl r ↦ (
    r.2.0,
    r.2.1 ∙ ap (λ v. ok v r.2.0) (ap value (ap (take n) e ∙ take-exact n xs ys len)),
    r.2.2 ∙ (ap (drop n) e ∙ drop-exact n xs ys len),
    r.2.3,
  )
  | inr (inl r) ↦ absurd (omega arith)
  | inr (inr r) ↦ absurd (omega (arith, length-ahead c b, ap length e, length-append xs ys))
]

Reads-bind {ℓ κ} :
    {A : Type ℓ} {B : Type κ} (o : Outcome A) (f : A → BitCursor → Outcome B) {a : A} {b : B}
    {xs ys : List ℕ}
    → Reads o a xs
    → ((c : BitCursor) → ahead c ≡ xs → c.bit < 8 → Reads (f a c) b ys)
    → Reads (o >>= f) b ys
Reads-bind o f r h = let s = h r.0 r.2 r.3 in (s.0, ap (λ p. p >>= f) r.1 ∙ s.1, s.2, s.3)

read_bool-Reads :
    (c : BitCursor) (b : ℕ) (ys : List ℕ)
    → c.bit < 8
    → ahead c ≡ b ∷ ys
    → Reads (read_bool c) (b == 1) ys
unfolding read_bool
read_bool-Reads c b ys h e =
    Reads-bind (read_bits c 1) (λ v c. ok (v == 1) c)
      (enough_bits c 1 (b ∷ []) ys h (omega arith) refl e)
      (λ c' e' h'. (c', ap (λ v. ok (v == 1) c') (omega arith), e', h'))

few : (z : ℕ) → z + 1 ≤ 63 → ltb 63 (z + 1) ≡ false
few z h = ground arith

shift_suc : (z k : ℕ) → z + 1 + k ≡ z + suc k
shift_suc z k = omega arith

leading_zeros-Reads :
    (fuel k z : ℕ) (c : BitCursor) (ys : List ℕ)
    → k < fuel
    → z + k ≤ 63
    → c.bit < 8
    → ahead c ≡ replicate k 0 ++ 1 ∷ ys
    → Reads (leading_zeros fuel z c) (z + k) ys
unfolding leading_zeros
leading_zeros-Reads zero k z c ys f le h e = absurd (omega arith)
leading_zeros-Reads (suc fuel) zero z c ys f le h e =
    Reads-bind (read_bool c) (zeros_round z (leading_zeros fuel (z + 1)))
      (read_bool-Reads c 1 ys h e) (λ c' e' h'. (c', ap (λ v. ok v c') (omega arith), e', h'))
leading_zeros-Reads (suc fuel) (suc k) z c ys f le h e =
    Reads-bind (read_bool c) (zeros_round z (leading_zeros fuel (z + 1)))
      (read_bool-Reads c 0 (replicate k 0 ++ 1 ∷ ys) h e)
      (λ c' e' h'. rw (few z (omega arith)) (
        subst (λ n. Reads (leading_zeros fuel (z + 1) c') n ys) (shift_suc z k)
          (leading_zeros-Reads fuel k (z + 1) c' ys (omega arith) (omega arith) h' e')))

value-bits : (k x : ℕ) → x < 2 ^ k → value (bits k x) ≡ x
value-bits k x lt = omega (arith, value_from-bits k 0 x, mod-eq_of_lt lt)

ue_fits : (k x : ℕ) → k ≤ 63 → x < 2 ^ k → (2 ^ k - 1 + x) % 2 ^ 64 ≡ 2 ^ k - 1 + x
ue_fits k x le lt =
    let small = pow-le-pow_right {n = 2} (omega arith) le in mod-eq_of_lt (omega arith)

-- Reading the code of a number returns the number and leaves what follows the code ahead.
pub read_ue-golomb :
    (c : BitCursor) (k x : ℕ) (ys : List ℕ)
    → c.bit < 8
    → k ≤ 63
    → x < 2 ^ k
    → ahead c ≡ golomb k x ++ ys
    → Reads (read_ue c) (2 ^ k - 1 + x) ys
unfolding read_ue
read_ue-golomb c k x ys h le lt e =
    Reads-bind (leading_zeros 64 0 c) ue_rest
      (leading_zeros-Reads 64 k 0 c (bits k x ++ ys) (omega arith) (omega arith) h
        (e ∙ append_assoc (replicate k 0) (1 ∷ bits k x) ys))
      (λ c e h.
        subst (λ z. Reads (ue_rest z c) (2 ^ k - 1 + x) ys) (sym (zero-add k))
          (Reads-bind (read_bits c k) (λ code c. ok ((2 ^ k - 1 + code) % 2 ^ 64) c)
            (enough_bits c k (bits k x) ys h (omega arith) (length-bits k x) e)
            (λ c e h. (
              c,
              ap (λ v. ok v c)
                  (ap (λ (v : ℕ). (2 ^ k - 1 + v) % 2 ^ 64) (value-bits k x lt)
                    ∙ ue_fits k x le lt),
              e,
              h,
            ))))

only_zeros :
    (fuel z : ℕ) (c : BitCursor) (ys : List ℕ)
    → z + fuel ≡ 64
    → z < 64
    → c.bit < 8
    → ahead c ≡ replicate fuel 0 ++ ys
    → (d : BitCursor) × (leading_zeros fuel z c ≡ err invalid_bits d)
unfolding leading_zeros
only_zeros zero z c ys s m h e = absurd (omega arith)
only_zeros (suc fuel) z c ys s m h e =
    let r = read_bool-Reads c 0 (replicate fuel 0 ++ ys) h e in
    elim (Bool-cases (ltb 63 (z + 1))) [
      | inl end ↦
          (r.0, ap (λ o. o >>= zeros_round z (leading_zeros fuel (z + 1))) r.1 ∙ rw end refl)
      | inr more ↦
          let rest = only_zeros fuel (z + 1) r.0 ys (omega arith) (ground arith) r.3 r.2 in
          (rest.0, ap (λ o. o >>= zeros_round z (leading_zeros fuel (z + 1))) r.1 ∙ rw more rest.1)
    ]

-- A code that starts with 64 zeros is refused as invalid, whatever follows.
pub read_ue_zeros :
    (c : BitCursor) (ys : List ℕ)
    → c.bit < 8
    → ahead c ≡ replicate 64 0 ++ ys
    → (d : BitCursor) × (read_ue c ≡ err invalid_bits d)
unfolding read_ue
read_ue_zeros c ys h e =
    let r = only_zeros 64 0 c ys refl (omega arith) h e in (r.0, ap (λ o. o >>= ue_rest) r.1)

-- The value that the code number `n` has as a signed code: 0, 1, -1, 2, -2 and so on.
abbrev pub signed : ℕ → ℤ
signed n = if n % 2 == 0 then sub_ℕ 0 (n / 2) else pos (n / 2 + 1)

signed_value : (n : ℕ) (c : BitCursor) → n + 1 < 2 ^ 64 → se_rest n c ≡ ok (signed n) c
signed_value n c h =
    let low : leb (2 ^ 63) ((n + 1) / 2) ≡ false = ground arith in
    elim (Bool-cases (n % 2 == 0)) [
      | inl even ↦ let e : (n + 1) / 2 ≡ n / 2 = ground arith in rw (low, even, e) refl
      | inr odd ↦ let e : (n + 1) / 2 ≡ n / 2 + 1 = ground arith in rw (low, odd, e) refl
    ]

-- Reading a signed code returns the signed value of the code's number.
pub read_se-golomb :
    (c : BitCursor) (k x : ℕ) (ys : List ℕ)
    → c.bit < 8
    → k ≤ 63
    → x < 2 ^ k
    → ahead c ≡ golomb k x ++ ys
    → Reads (read_se c) (signed (2 ^ k - 1 + x)) ys
unfolding read_se
read_se-golomb c k x ys h le lt e =
    let small = pow-le-pow_right {n = 2} (omega arith) le in
    Reads-bind (read_ue c) se_rest (read_ue-golomb c k x ys h le lt e)
      (λ d e h. (d, signed_value (2 ^ k - 1 + x) d (omega arith), e, h))
