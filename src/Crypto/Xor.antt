-- ===== src/Crypto/Xor.antt =====
-- crates/cheetah-crypto-transforms/src/xor.rs: the repeating key transform.
pub mod Stream
mod Tests
use Prim.Native.Nat.{bit_xor}
use cheetah_media_engine.Prelude.{
  ℕ, zero, suc, ◌+◌, Bool, List, [], ◌∷◌, length, get_or, ◌==◌, if◌then◌else◌,
}
use cheetah_media_engine.Crypto.Bytes.{CryptoError, invalid_key_length, Transformed, ok, err}

-- The output buffer is the result of an update, and is cleared by the next one.
pub record XorTransform : Type 0 where
  pub key : List ℕ
  pub position : ℕ

abbrev pub new_xor : List ℕ → Transformed XorTransform
new_xor [] = err (invalid_key_length 1 0)
new_xor (k ∷ key) = ok record { key = k ∷ key; position = 0 }

abbrev pub next_position : XorTransform → ℕ
next_position t = if t.position + 1 == length t.key then 0 else t.position + 1

pub update_xor : XorTransform → List ℕ → XorTransform × List ℕ
update_xor t [] = (t, [])
update_xor t (b ∷ bytes) =
    let rest = update_xor (record t { position = next_position t }) bytes in
    (rest.0, bit_xor b (get_or t.key t.position 0) ∷ rest.1)

abbrev pub finalize_xor : XorTransform → List ℕ
finalize_xor t = []
