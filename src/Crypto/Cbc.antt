-- ===== src/Crypto/Cbc.antt =====
-- crates/cheetah-crypto-transforms/src/cbc.rs: decryption of a cipher block chain. The block
-- cipher is another crate's: its block size and its decryption of a block are parameters.
pub mod Pieces
pub mod RoundTrip
mod Tests
use Prim.Native.Nat.{bit_xor}
use cheetah_media_engine.Prelude.{
  ℕ, zero, suc, ◌+◌, ◌-◌, ◌*◌, Bool, true, false, not, ◌&&◌, ◌||◌, List, [], ◌∷◌, ◌++◌, length,
  get_or, take, drop, Option, none, some, ltb, leb, ◌==◌, if◌then◌else◌,
}
use cheetah_media_engine.Crypto.Bytes.{
  CryptoError, invalid_key_length, invalid_iv_length, invalid_input_length, bad_padding,
  already_finalized, Transformed, ok, err,
}

-- What is used of the cipher, with the key it was made from.
pub record Cipher : Type 0 where
  pub key_size : ℕ
  pub block_size : ℕ
  pub decrypt_block : List ℕ → List ℕ → List ℕ

pub record CbcTransform : Type 0 where
  pub key : List ℕ
  pub iv : List ℕ
  pub buf : List ℕ
  pub finalized : Bool

unfoldable pub new_cbc : Cipher → List ℕ → List ℕ → Transformed CbcTransform
new_cbc c key iv =
    if not (length key == c.key_size)
    then err (invalid_key_length c.key_size (length key))
    else if not (length iv == c.block_size)
    then err (invalid_iv_length c.block_size (length iv))
    else ok record { key = key; iv = iv; buf = []; finalized = false }

-- `*a ^= b` over the two slices, as far as both reach.
abbrev pub xor_with : List ℕ → List ℕ → List ℕ
xor_with [] ks = []
xor_with (b ∷ bs) [] = b ∷ bs
xor_with (b ∷ bs) (k ∷ ks) = bit_xor b k ∷ xor_with bs ks

abbrev pub plain_block : Cipher → List ℕ → List ℕ → List ℕ → List ℕ
plain_block c key iv block = xor_with (c.decrypt_block key block) iv

-- The loop of `update`, on fuel: the chain value, the bytes that are left, and the output. Each
-- round takes a block, so as many rounds as there are bytes are enough.
pub decrypt_loop : Cipher → List ℕ → ℕ → List ℕ → List ℕ → List ℕ × List ℕ × List ℕ
decrypt_loop c key zero iv buf = (iv, buf, [])
decrypt_loop c key (suc fuel) iv buf =
    let block = take c.block_size buf in
    let rest = decrypt_loop c key fuel block (drop c.block_size buf) in
    if leb (c.block_size * 2) (length buf)
    then (rest.0, rest.1, plain_block c key iv block ++ rest.2)
    else (iv, buf, [])

-- The last full block is kept back, since it may be the padded one.
pub update_cbc : Cipher → CbcTransform → List ℕ → CbcTransform × Transformed (List ℕ)
unfolding decrypt_loop
update_cbc c t bytes =
    if t.finalized
    then (t, err already_finalized)
    else (let buf = t.buf ++ bytes in
        let r = decrypt_loop c t.key (length buf) t.iv buf in
        (record t { iv = r.0; buf = r.1 }, ok r.2))

abbrev pub all_equal : ℕ → List ℕ → Bool
all_equal v [] = true
all_equal v (b ∷ bs) = (b == v) && all_equal v bs

-- The number of bytes before the padding.
unfoldable pub pkcs7_unpad : List ℕ → Option ℕ
pkcs7_unpad block =
    let pad_len = get_or block (length block - 1) 0 in
    if length block == 0 || (pad_len == 0 || ltb (length block) pad_len)
    then none
    else if all_equal pad_len (drop (length block - pad_len) block)
    then some (length block - pad_len)
    else none

abbrev pub unpadded : List ℕ → Option ℕ → Transformed (List ℕ)
unpadded block none = err bad_padding
unpadded block (some n) = ok (take n block)

-- The chain value moves on even if the padding is refused.
abbrev pub last_block : Cipher → CbcTransform → CbcTransform × Transformed (List ℕ)
last_block c t =
    let plain = plain_block c t.key t.iv t.buf in
    (record t { iv = t.buf }, unpadded plain (pkcs7_unpad plain))

unfoldable pub finalize_cbc : Cipher → CbcTransform → CbcTransform × Transformed (List ℕ)
finalize_cbc c t =
    if t.finalized
    then (t, err already_finalized)
    else if length t.buf == 0
    then (record t { finalized = true }, ok [])
    else if not (length t.buf == c.block_size)
    then (record t { finalized = true }, err invalid_input_length)
    else last_block c (record t { finalized = true })
