-- ===== src/Crypto/Bytes.antt =====
-- The exclusive or of bytes: applied twice, it does nothing.
use Prim.Native.Nat.{bit_xor}
use cheetah_media_engine.Prelude.{
  ℕ, zero, suc, ◌<◌, ◌≡◌, refl, Bool, true, false, List, [], ◌∷◌, get_or, ◌==◌, ==_iff, ltb, ltb→lt,
  if◌then◌else◌, arith,
}

-- A test passes for all numbers below a bound.
passes_under : (ℕ → Bool) → ℕ → Bool
passes_under test zero = true
passes_under test (suc bound) = if test bound then passes_under test bound else false

passes_under-at :
    (test : ℕ → Bool) (bound b : ℕ) → b < bound → passes_under test bound ≡ true → test b ≡ true
unfolding passes_under
passes_under-at test zero b small all = absurd (omega arith)
passes_under-at test (suc bound) b small all = ground (arith, passes_under-at test bound b)

both_bytes : (ℕ → ℕ → Bool) → Bool
unfolding passes_under
both_bytes test = passes_under (λ b. passes_under (test b) 256) 256

both_bytes-at :
    (test : ℕ → ℕ → Bool) (b k : ℕ) → b < 256 → k < 256 → both_bytes test ≡ true → test b k ≡ true
unfolding both_bytes
both_bytes-at test b k hb hk all =
    passes_under-at (test b) 256 k hk
      (passes_under-at (λ b. passes_under (test b) 256) 256 b hb all)

is_undone : ℕ → ℕ → Bool
is_undone b k = bit_xor (bit_xor b k) k == b

is_byte_xor : ℕ → ℕ → Bool
is_byte_xor b k = ltb (bit_xor b k) 256

undone_table : both_bytes is_undone ≡ true
unfolding both_bytes is_undone
undone_table = refl

byte_xor_table : both_bytes is_byte_xor ≡ true
unfolding both_bytes is_byte_xor
byte_xor_table = refl

-- For bytes, the exclusive or with a key byte is undone by itself, and is a byte.
pub xor_twice : (b k : ℕ) → b < 256 → k < 256 → bit_xor (bit_xor b k) k ≡ b
unfolding is_undone
xor_twice b k hb hk = (==_iff _ b).0 (both_bytes-at is_undone b k hb hk undone_table)

pub xor_byte : (b k : ℕ) → b < 256 → k < 256 → bit_xor b k < 256
unfolding is_byte_xor
xor_byte b k hb hk = ltb→lt _ 256 (both_bytes-at is_byte_xor b k hb hk byte_xor_table)

abbrev pub AreBytes : List ℕ → Type 0
AreBytes [] = 0 < 1
AreBytes (b ∷ bytes) = (b < 256) × AreBytes bytes

pub get_or-byte : (bytes : List ℕ) (i : ℕ) → AreBytes bytes → get_or bytes i 0 < 256
get_or-byte [] i h = omega arith
get_or-byte (b ∷ bytes) zero h = h.0
get_or-byte (b ∷ bytes) (suc i) h = get_or-byte bytes i h.1

-- crates/cheetah-crypto-transforms/src/error.rs.
pub data CryptoError : Type 0 where
  invalid_key_length invalid_iv_length : ℕ → ℕ → CryptoError
  invalid_input_length bad_padding already_finalized : CryptoError

pub data Transformed {ℓ} (A : Type ℓ) : Type ℓ where
  ok : A → Transformed A
  err : CryptoError → Transformed A
