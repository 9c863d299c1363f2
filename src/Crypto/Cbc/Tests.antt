-- ===== src/Crypto/Cbc/Tests.antt =====
-- Tests of the block chain, with a cipher of blocks of four bytes that keeps a block as it is.
use cheetah_media_engine.Prelude.{◌≡◌, refl, [], ◌∷◌, ◌++◌, List, ℕ, replicate, arith}
use cheetah_media_engine.Crypto.Bytes.{ok}
use cheetah_media_engine.Crypto.Cbc.{Cipher, CbcTransform, update_cbc, finalize_cbc}
use cheetah_media_engine.Crypto.Cbc.Pieces.{update_cbc-append}
use cheetah_media_engine.Crypto.Cbc.RoundTrip.{
  encrypt_chain, concat, fresh, finalize_cbc-encrypt_chain,
}

abbrev plain_cipher : Cipher
plain_cipher = record { key_size = 0; block_size = 4; decrypt_block = λ key b. b }

abbrev iv : List ℕ
iv = 9 ∷ 8 ∷ 7 ∷ 6 ∷ []

abbrev block : List ℕ
block = 1 ∷ 2 ∷ 3 ∷ 4 ∷ []

update_cbc-append_example :
    (u : CbcTransform) × (v : CbcTransform) × (first : List ℕ) × (second : List ℕ) × (update_cbc
        plain_cipher
        (fresh [] iv)
        (block ++ 5 ∷ [])
      ≡ (u, ok first))
    × (update_cbc plain_cipher u (block ++ block) ≡ (v, ok second))
    × (update_cbc plain_cipher (fresh [] iv) ((block ++ 5 ∷ []) ++ (block ++ block))
        ≡ (v, ok (first ++ second)))
update_cbc-append_example =
    update_cbc-append plain_cipher (fresh [] iv) (block ++ 5 ∷ []) (block ++ block) (omega arith)
      refl

finalize_cbc-encrypt_chain_example :
    (u : CbcTransform) × (v : CbcTransform) × (update_cbc plain_cipher
        (fresh [] iv)
        (encrypt_chain (λ b. b) iv ((block ∷ block ∷ []) ++ ((5 ∷ 6 ∷ []) ++ replicate 2 2) ∷ []))
      ≡ (u, ok (concat (block ∷ block ∷ []))))
    × (finalize_cbc plain_cipher u ≡ (v, ok (5 ∷ 6 ∷ [])))
finalize_cbc-encrypt_chain_example =
    finalize_cbc-encrypt_chain plain_cipher [] iv (5 ∷ 6 ∷ []) (λ b. b) (block ∷ block ∷ []) 2
      (omega arith) (λ b l h. (l, h, refl))
      (omega arith, (omega arith, (omega arith, (omega arith, omega arith))))
      (
        refl,
        (omega arith, (omega arith, (omega arith, (omega arith, omega arith)))),
        (
          refl,
          (omega arith, (omega arith, (omega arith, (omega arith, omega arith)))),
          omega arith,
        ),
      )
      refl (omega arith, (omega arith, (omega arith, (omega arith, omega arith)))) (omega arith)
