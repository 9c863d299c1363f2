-- ===== src/Bitstream/Bytes/Integers.antt =====
-- Big-endian integers: what a writer puts into a stream comes back out of it.
use cheetah_media_engine.Prelude.{
  ℕ, zero, suc, ◌+◌, ◌*◌, ◌/◌, ◌%◌, ◌^◌, ◌<◌, ◌≡◌, false, refl, sym, ap, ◌∙◌, List, [], ◌∷◌, ◌++◌,
  length, some, ltb, arith, length-append, take-exact, drop-exact,
}
use native.Mathlib.Nat.{div-div-eq-div-mul, mod-eq_of_lt, pow-suc, mod-add-div'}
use cheetah_media_engine.Bitstream.Bytes.{be, read_be, new_bytes}

-- The `n` bytes of a number, the most significant one first.
abbrev pub bytes_of : ℕ → ℕ → List ℕ
bytes_of zero x = []
bytes_of (suc n) x = x / 256 ^ n % 256 ∷ bytes_of n x

pub length-bytes_of : (n x : ℕ) → length (bytes_of n x) ≡ n
length-bytes_of zero x = refl
length-bytes_of (suc n) x = ap suc (length-bytes_of n x)

mod_step : (x p : ℕ) → x % (p * 256) ≡ x / p % 256 * p + x % p
mod_step x p = omega (
  arith,
  mod-add-div' x p,
  mod-add-div' x (p * 256),
  div-div-eq-div-mul x p 256,
  ap (λ (k : ℕ). k * (p * 256)) (div-div-eq-div-mul x p 256),
  ap (λ (k : ℕ). k * p) (mod-add-div' (x / p) 256),
)

shift_in : (acc r p l : ℕ) → (acc * 256 + r) * p + l ≡ acc * (p * 256) + (r * p + l)
shift_in acc r p l = grind arith

pub be-bytes_of : (n acc x : ℕ) → be acc (bytes_of n x) ≡ acc * 256 ^ n + x % 256 ^ n
be-bytes_of zero acc x = omega arith
be-bytes_of (suc n) acc x =
    be-bytes_of n (acc * 256 + x / 256 ^ n % 256) x
    ∙ shift_in acc (x / 256 ^ n % 256) (256 ^ n) (x % 256 ^ n)
    ∙ rw (sym (mod_step x (256 ^ n)), sym (pow-suc 256 n))

-- An integer of `n` bytes, written in big-endian order, is read back, and what follows it is left.
pub read_be-bytes_of :
    (n x : ℕ) (ys : List ℕ)
    → x < 256 ^ n
    → read_be n (new_bytes (bytes_of n x ++ ys)) ≡ some (x, new_bytes ys)
read_be-bytes_of n x ys lt =
    let enough : ltb (length (bytes_of n x ++ ys)) n ≡ false =
      ground (arith, length-append (bytes_of n x) ys, length-bytes_of n x) in
    let e : be 0 (bytes_of n x) ≡ x = omega (arith, be-bytes_of n 0 x, mod-eq_of_lt lt) in
    rw
      (
        enough,
        take-exact n (bytes_of n x) ys (length-bytes_of n x),
        drop-exact n (bytes_of n x) ys (length-bytes_of n x),
        e,
      )
      refl
