-- ===== src/Crypto/Cbc/RoundTrip.antt =====
-- Decryption of what an encryptor of the same cipher wrote.
use cheetah_media_engine.Prelude.{
  ℕ, zero, suc, ◌+◌, ◌-◌, ◌*◌, ◌≤◌, ◌<◌, ◌≡◌, refl, ap, ◌∙◌, List, [], ◌∷◌, ◌++◌, length, drop,
  append-nil, length-append, length-replicate, take-exact, drop-exact, replicate, get_or, leb, ltb,
  ◌==◌, arith, true, false, some,
}
use cheetah_media_engine.Crypto.Bytes.{ok, AreBytes, xor_twice, xor_byte}
use cheetah_media_engine.Crypto.Cbc.{
  Cipher, CbcTransform, decrypt_loop, update_cbc, finalize_cbc, plain_block, xor_with, pkcs7_unpad,
  all_equal,
}
use cheetah_media_engine.Crypto.Cbc.Pieces.{decrypt_loop-round, decrypt_loop-few, join}

xor_with_twice : (bs ks : List ℕ) → AreBytes bs → AreBytes ks → xor_with (xor_with bs ks) ks ≡ bs
xor_with_twice [] ks hb hk = refl
xor_with_twice (b ∷ bs) [] hb hk = refl
xor_with_twice (b ∷ bs) (k ∷ ks) hb hk =
    ap (λ x. x ∷ xor_with (xor_with bs ks) ks) (xor_twice b k hb.0 hk.0)
    ∙ ap (λ xs. b ∷ xs) (xor_with_twice bs ks hb.1 hk.1)

xor_with-AreBytes : (bs ks : List ℕ) → AreBytes bs → AreBytes ks → AreBytes (xor_with bs ks)
xor_with-AreBytes [] ks hb hk = hb
xor_with-AreBytes (b ∷ bs) [] hb hk = hb
xor_with-AreBytes (b ∷ bs) (k ∷ ks) hb hk =
    (xor_byte b k hb.0 hk.0, xor_with-AreBytes bs ks hb.1 hk.1)

length-xor_with : (bs ks : List ℕ) → length (xor_with bs ks) ≡ length bs
length-xor_with [] ks = refl
length-xor_with (b ∷ bs) [] = refl
length-xor_with (b ∷ bs) (k ∷ ks) = ap suc (length-xor_with bs ks)

-- Blocks of one size, of bytes.
abbrev pub AreBlocks : ℕ → List (List ℕ) → Type 0
AreBlocks n [] = 0 < 1
AreBlocks n (p ∷ ps) = (length p ≡ n) × AreBytes p × AreBlocks n ps

abbrev pub concat : List (List ℕ) → List ℕ
concat [] = []
concat (p ∷ ps) = p ++ concat ps

-- The ciphertext of blocks, and the chain value after them.
abbrev pub encrypt_chain : (List ℕ → List ℕ) → List ℕ → List (List ℕ) → List ℕ
encrypt_chain encrypt iv [] = []
encrypt_chain encrypt iv (p ∷ ps) =
    encrypt (xor_with p iv) ++ encrypt_chain encrypt (encrypt (xor_with p iv)) ps

abbrev pub chain_value : (List ℕ → List ℕ) → List ℕ → List (List ℕ) → List ℕ
chain_value encrypt iv [] = iv
chain_value encrypt iv (p ∷ ps) = chain_value encrypt (encrypt (xor_with p iv)) ps

-- A block cipher whose decryption under a key undoes its encryption.
abbrev pub Inverts : Cipher → List ℕ → (List ℕ → List ℕ) → Type 0
Inverts c key encrypt =
    (b : List ℕ)
    → length b ≡ c.block_size
    → AreBytes b
    → (length (encrypt b) ≡ c.block_size)
      × AreBytes (encrypt b)
      × (c.decrypt_block key (encrypt b) ≡ b)

module _ (c : Cipher) (key : List ℕ) (encrypt : List ℕ → List ℕ) (sized : 1 ≤ c.block_size)
    (inverts : Inverts c key encrypt) where
  plain-encrypt :
      (p iv : List ℕ)
      → length p ≡ c.block_size
      → AreBytes p
      → AreBytes iv
      → plain_block c key iv (encrypt (xor_with p iv)) ≡ p
  plain-encrypt p iv l hp hi =
      let i = inverts (xor_with p iv) (length-xor_with p iv ∙ l) (xor_with-AreBytes p iv hp hi) in
      ap (λ b. xor_with b iv) i.2 ∙ xor_with_twice p iv hp hi

  encrypted :
      (p iv : List ℕ)
      → length p ≡ c.block_size
      → AreBytes p
      → AreBytes iv
      → (length (encrypt (xor_with p iv)) ≡ c.block_size) × AreBytes (encrypt (xor_with p iv))
  encrypted p iv l hp hi =
      let i = inverts (xor_with p iv) (length-xor_with p iv ∙ l) (xor_with-AreBytes p iv hp hi) in
      (i.0, i.1)

  one_block_more :
      (iv : List ℕ) (ps : List (List ℕ)) (last : List ℕ)
      → AreBytes iv
      → AreBlocks c.block_size ps
      → length last ≡ c.block_size
      → AreBytes last
      → c.block_size ≤ length (encrypt_chain encrypt iv (ps ++ last ∷ []))
  one_block_more iv [] last hi hp l hl =
      omega (arith, length-append (encrypt (xor_with last iv)) [], (encrypted last iv l hl hi).0)
  one_block_more iv (p ∷ ps) last hi hp l hl =
      let b = encrypt (xor_with p iv) in
      omega (
        arith,
        length-append b (encrypt_chain encrypt b (ps ++ last ∷ [])),
        (encrypted p iv hp.0 hp.1 hi).0,
      )

  decrypt_loop-chain :
      (n : ℕ) (iv : List ℕ) (ps : List (List ℕ)) (last : List ℕ)
      → length (encrypt_chain encrypt iv (ps ++ last ∷ [])) ≤ n
      → AreBytes iv
      → AreBlocks c.block_size ps
      → length last ≡ c.block_size
      → AreBytes last
      → decrypt_loop c key n iv (encrypt_chain encrypt iv (ps ++ last ∷ [])) ≡ (
        chain_value encrypt iv ps,
        encrypt (xor_with last (chain_value encrypt iv ps)),
        concat ps,
      )
  decrypt_loop-chain n iv [] last fit hi hp l hl =
      let b = encrypt (xor_with last iv) in
      let e = encrypted last iv l hl hi in
      let few : leb (c.block_size * 2) (length (b ++ [])) ≡ false =
        ground (arith, length-append b []) in
      decrypt_loop-few c key sized n iv (b ++ []) few ∙ ap (λ rest. (iv, rest, [])) (append-nil b)
  decrypt_loop-chain n iv (p ∷ ps) last fit hi hp l hl =
      let b = encrypt (xor_with p iv) in
      let rest = encrypt_chain encrypt b (ps ++ last ∷ []) in
      let e = encrypted p iv hp.0 hp.1 hi in
      let more = one_block_more b ps last e.1 hp.2 l hl in
      let long = length-append b rest in
      let many : leb (c.block_size * 2) (length (b ++ rest)) ≡ true = ground arith in
      decrypt_loop-round c key sized n iv (b ++ rest) fit many
      ∙ ap (λ x. join c key sized iv x (decrypt_loop c key n x (drop c.block_size (b ++ rest))))
          (take-exact c.block_size b rest e.0)
      ∙ ap (λ x. join c key sized iv b (decrypt_loop c key n b x))
          (drop-exact c.block_size b rest e.0)
      ∙ ap (join c key sized iv b) (decrypt_loop-chain n b ps last (omega arith) e.1 hp.2 l hl)
      ∙ ap
          (λ x. (
            chain_value encrypt b ps,
            encrypt (xor_with last (chain_value encrypt b ps)),
            x ++ concat ps,
          ))
          (plain-encrypt p iv hp.0 hp.1 hi)

module _ (c : Cipher) (key : List ℕ) (encrypt : List ℕ → List ℕ) (sized : 1 ≤ c.block_size)
    (inverts : Inverts c key encrypt) where
  chain_value-AreBytes :
      (iv : List ℕ) (ps : List (List ℕ))
      → AreBytes iv
      → AreBlocks c.block_size ps
      → AreBytes (chain_value encrypt iv ps)
  chain_value-AreBytes iv [] hi hp = hi
  chain_value-AreBytes iv (p ∷ ps) hi hp =
      chain_value-AreBytes (encrypt (xor_with p iv)) ps
        (encrypted c key encrypt sized inverts p iv hp.0 hp.1 hi).1 hp.2

-- The padding of a block: `k` bytes of value `k`.
all_equal-replicate : (k v : ℕ) → all_equal v (replicate k v) ≡ true
all_equal-replicate zero v = refl
all_equal-replicate (suc k) v =
    let e : (v == v) ≡ true = ground arith in rw e (all_equal-replicate k v)

get_or-padding :
    (xs : List ℕ) (k v i : ℕ)
    → length xs ≤ i
    → i < length xs + k
    → get_or (xs ++ replicate k v) i 0 ≡ v
get_or-padding [] zero v i le lt = absurd (omega arith)
get_or-padding [] (suc k) v zero le lt = refl
get_or-padding [] (suc k) v (suc i) le lt = get_or-padding [] k v i (omega arith) (omega arith)
get_or-padding (x ∷ xs) k v zero le lt = absurd (omega arith)
get_or-padding (x ∷ xs) k v (suc i) le lt = get_or-padding xs k v i (omega arith) (omega arith)

-- Unpadding finds the bytes before a padding of one byte up to a block.
pub pkcs7_unpad-padded :
    (xs : List ℕ) (k : ℕ) → 1 ≤ k → pkcs7_unpad (xs ++ replicate k k) ≡ some (length xs)
unfolding pkcs7_unpad
pkcs7_unpad-padded xs k h =
    let n = length-append xs (replicate k k) in
    let r = length-replicate k k in
    let v = get_or-padding xs k k (length (xs ++ replicate k k) - 1) (omega arith) (omega arith) in
    let t1 : (length (xs ++ replicate k k) == 0) ≡ false = ground arith in
    let t2 : (k == 0) ≡ false = ground arith in
    let t3 : ltb (length (xs ++ replicate k k)) k ≡ false = ground arith in
    let d : length (xs ++ replicate k k) - k ≡ length xs = omega arith in
    rw (t1, v, t2, t3, d, drop-exact (length xs) xs (replicate k k) refl, all_equal-replicate k k)
      refl

abbrev pub fresh : List ℕ → List ℕ → CbcTransform
fresh key iv = record { key = key; iv = iv; buf = []; finalized = false }

-- The transform gives back what an encryptor of the same cipher wrote: the update returns all
-- blocks but the last one, and the end returns the last one without its padding.
pub finalize_cbc-encrypt_chain :
    (c : Cipher) (key iv tail : List ℕ) (encrypt : List ℕ → List ℕ) (ps : List (List ℕ)) (k : ℕ)
    → 1 ≤ c.block_size
    → Inverts c key encrypt
    → AreBytes iv
    → AreBlocks c.block_size ps
    → length tail + k ≡ c.block_size
    → AreBytes (tail ++ replicate k k)
    → 1 ≤ k
    → (u : CbcTransform) × (v : CbcTransform) × (update_cbc c
          (fresh key iv)
          (encrypt_chain encrypt iv (ps ++ (tail ++ replicate k k) ∷ []))
        ≡ (u, ok (concat ps)))
      × (finalize_cbc c u ≡ (v, ok tail))
unfolding update_cbc finalize_cbc
finalize_cbc-encrypt_chain c key iv tail encrypt ps k sized inverts hi hp l hl h =
    let last = tail ++ replicate k k in
    let size : length last ≡ c.block_size =
      omega (arith, length-append tail (replicate k k), length-replicate k k) in
    let cipher = encrypt_chain encrypt iv (ps ++ last ∷ []) in
    let value = chain_value encrypt iv ps in
    let loop =
      decrypt_loop-chain c key encrypt sized inverts (length cipher) iv ps last (omega arith) hi hp
        size hl in
    let hv = chain_value-AreBytes c key encrypt sized inverts iv ps hi hp in
    let e = encrypted c key encrypt sized inverts last value size hl hv in
    let kept = encrypt (xor_with last value) in
    let t1 : (length kept == 0) ≡ false = ground arith in
    let t2 : (length kept == c.block_size) ≡ true = ground arith in
    (
      record { key = key; iv = value; buf = kept; finalized = false },
      record { key = key; iv = kept; buf = kept; finalized = true },
      ap (λ r. (record { key = key; iv = r.0; buf = r.1; finalized = false }, ok r.2)) loop,
      rw
          (
            t1,
            t2,
            plain-encrypt c key encrypt sized inverts last value size hl hv,
            pkcs7_unpad-padded tail k h,
            take-exact (length tail) tail (replicate k k) refl,
          )
          refl,
    )
