-- ===== src/Bitstream/Bit/Stream.antt =====
-- The bits that lie ahead of a cursor, as a list, and the number that a list of bits writes.
use cheetah_media_engine.Prelude.{
  ℕ, zero, inl, inr, leb, Bool-cases, get_or, suc, ◌+◌, ◌-◌, ◌*◌, ◌/◌, ◌%◌, ◌^◌, ◌≤◌, ◌<◌, ◌≡◌,
  refl, sym, ap, ◌∙◌, List, [], ◌∷◌, ◌++◌, length, take, drop, drop-drop, drop-append, take-append,
  arith,
}
use native.Mathlib.Nat.{pow-suc, div-div-eq-div-mul, mod-add-div', mul_comm, zero-add}
use cheetah_media_engine.Bitstream.Bit.{BitCursor, advance, bits_of_byte}

-- The low `n` bits of a number, the most significant one first.
abbrev pub bits : ℕ → ℕ → List ℕ
bits zero x = []
bits (suc n) x = x / 2 ^ n % 2 ∷ bits n x

abbrev pub value_from : ℕ → List ℕ → ℕ
value_from acc [] = acc
value_from acc (b ∷ bs) = value_from (acc * 2 + b) bs

abbrev pub value : List ℕ → ℕ
value bs = value_from 0 bs

abbrev pub all_bits : List ℕ → List ℕ
all_bits [] = []
all_bits (x ∷ xs) = bits 8 x ++ all_bits xs

abbrev pub ahead : BitCursor → List ℕ
ahead c = drop c.bit (all_bits (drop c.index c.buf))

pub length-bits : (n x : ℕ) → length (bits n x) ≡ n
length-bits zero x = refl
length-bits (suc n) x = ap suc (length-bits n x)

pub length-all_bits : (xs : List ℕ) → length (all_bits xs) ≡ length xs * 8
length-all_bits [] = refl
length-all_bits (x ∷ xs) = omega (arith, length-all_bits xs)

pub drop-bits : (b m n x : ℕ) → m ≡ b + n → drop b (bits m x) ≡ bits n x
drop-bits zero m n x e = ap (λ k. bits k x) (omega arith)
drop-bits (suc b) zero n x e = absurd (omega arith)
drop-bits (suc b) (suc m) n x e = drop-bits b m n x (omega arith)

pub pow_add : (m a b : ℕ) → m ≡ a + b → 2 ^ m ≡ 2 ^ a * 2 ^ b
pow_add m zero b e = ap (λ (k : ℕ). 2 ^ k) (e ∙ zero-add b) ∙ omega arith
pow_add zero (suc a) b e = absurd (omega arith)
pow_add (suc m) (suc a) b e =
    grind (arith, pow-suc 2 m, pow_add m a b (omega arith), ap (λ (k : ℕ). k * 2 ^ b) (pow-suc 2 a))

mod_double : (x p : ℕ) → x % (p * 2) ≡ x / p % 2 * p + x % p
mod_double x p = omega (
  arith,
  mod-add-div' x p,
  mod-add-div' x (p * 2),
  div-div-eq-div-mul x p 2,
  ap (λ (k : ℕ). k * (p * 2)) (div-div-eq-div-mul x p 2),
  ap (λ (k : ℕ). k * p) (mod-add-div' (x / p) 2),
)

shift_in : (acc r p l : ℕ) → (acc * 2 + r) * p + l ≡ acc * (p * 2) + (r * p + l)
shift_in acc r p l = grind arith

pub value_from-bits : (n acc x : ℕ) → value_from acc (bits n x) ≡ acc * 2 ^ n + x % 2 ^ n
value_from-bits zero acc x = omega arith
value_from-bits (suc n) acc x =
    value_from-bits n (acc * 2 + x / 2 ^ n % 2) x
    ∙ shift_in acc (x / 2 ^ n % 2) (2 ^ n) (x % 2 ^ n)
    ∙ rw (sym (mod_double x (2 ^ n)), sym (pow-suc 2 n))

pub take-bits : (n s m x : ℕ) → m ≡ n + s → take n (bits m x) ≡ bits n (x / 2 ^ s)
take-bits zero s m x e = refl
take-bits (suc n) s zero x e = absurd (omega arith)
take-bits (suc n) s (suc m) x e =
    rw
      (
        take-bits n s m x (omega arith),
        div-div-eq-div-mul x (2 ^ s) (2 ^ n),
        mul_comm (2 ^ s) (2 ^ n),
        sym (pow_add (n + s) n s refl),
      )
      (ap (λ (k : ℕ). x / 2 ^ k % 2 ∷ bits n (x / 2 ^ s)) (omega arith))

-- Splitting lists at a position.
pub drop-at :
    (i j : ℕ) (xs : List ℕ) → j ≡ i + 1 → i < length xs → drop i xs ≡ get_or xs i 0 ∷ drop j xs
drop-at zero j [] e h = absurd (omega arith)
drop-at zero j (x ∷ xs) e h = ap (λ k. x ∷ drop k (x ∷ xs)) (sym e)
drop-at (suc i) j [] e h = absurd (omega arith)
drop-at (suc i) zero (x ∷ xs) e h = absurd (omega arith)
drop-at (suc i) (suc j) (x ∷ xs) e h = drop-at i j xs (omega arith) (omega arith)

pub value_from-take :
    (n m k v : ℕ) (xs : List ℕ)
    → k ≡ n + m
    → value_from v (take k xs) ≡ value_from (value_from v (take n xs)) (take m (drop n xs))
value_from-take zero m k v xs e = ap (λ j. value_from v (take j xs)) (e ∙ zero-add m)
value_from-take (suc n) m zero v xs e = absurd (omega arith)
value_from-take (suc n) zero (suc k) v [] e = refl
value_from-take (suc n) (suc m) (suc k) v [] e = refl
value_from-take (suc n) m (suc k) v (x ∷ xs) e = value_from-take n m k (v * 2 + x) xs (omega arith)

-- The bits ahead, when the cursor stands in a byte.
module _ (c : BitCursor) (in_byte : c.bit < 8) (there : c.index < length c.buf) where
  abbrev later : List ℕ
  later = all_bits (drop (c.index + 1) c.buf)

  pub ahead-split : ahead c ≡ bits (8 - c.bit) (get_or c.buf c.index 0) ++ later
  ahead-split =
      ap (λ xs. drop c.bit (all_bits xs)) (drop-at c.index (c.index + 1) c.buf refl there)
      ∙ drop-append c.bit (bits 8 (get_or c.buf c.index 0)) later (omega arith)
      ∙ ap (λ xs. xs ++ later)
          (drop-bits c.bit 8 (8 - c.bit) (get_or c.buf c.index 0) (omega arith))

  pub take-ahead :
      (n v : ℕ) → c.bit + n ≤ 8 → value_from v (take n (ahead c)) ≡ v * 2 ^ n + bits_of_byte c n
  take-ahead n v h =
      ap (λ xs. value_from v (take n xs)) ahead-split
      ∙ ap (value_from v) (
          take-append n (bits (8 - c.bit) (get_or c.buf c.index 0)) later
            (omega (arith, length-bits (8 - c.bit) (get_or c.buf c.index 0)))
          ∙ take-bits n (8 - c.bit - n) (8 - c.bit) (get_or c.buf c.index 0) (omega arith))
      ∙ value_from-bits n v (get_or c.buf c.index 0 / 2 ^ (8 - c.bit - n))

  pub ahead-advance : (n : ℕ) → c.bit + n ≤ 8 → ahead (advance c n) ≡ drop n (ahead c)
  ahead-advance n h = elim (Bool-cases (leb 8 (c.bit + n))) [
    | inl e ↦ rw e (
        sym (
          sym (drop-drop c.bit n 8 (all_bits (drop c.index c.buf)) (ground arith))
          ∙ ap (λ xs. drop 8 (all_bits xs)) (drop-at c.index (c.index + 1) c.buf refl there)))
    | inr e ↦ rw e (drop-drop c.bit n (c.bit + n) (all_bits (drop c.index c.buf)) refl)
  ]
