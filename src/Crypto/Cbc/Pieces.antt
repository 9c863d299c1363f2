-- ===== src/Crypto/Cbc/Pieces.antt =====
-- The pieces in which the ciphertext arrives do not matter.
use cheetah_media_engine.Prelude.{
  ℕ, zero, suc, ◌+◌, ◌*◌, ◌≤◌, ◌≡◌, refl, sym, ap, ◌∙◌, inl, inr, Bool-cases, List, [], ◌++◌,
  length, take, drop, append_assoc, length-append, length-drop, take-append, drop-append, leb,
  arith, true, false, if◌then◌else◌,
}
use cheetah_media_engine.Crypto.Bytes.{Transformed, ok, err, already_finalized}
use cheetah_media_engine.Crypto.Cbc.{Cipher, CbcTransform, decrypt_loop, update_cbc, plain_block}

module _ (c : Cipher) (key : List ℕ) (sized : 1 ≤ c.block_size) where
  -- Rounds beyond the number of bytes change nothing.
  pub decrypt_loop-fuel :
      (n m : ℕ) (iv buf : List ℕ)
      → length buf ≤ n
      → length buf ≤ m
      → decrypt_loop c key n iv buf ≡ decrypt_loop c key m iv buf
  unfolding decrypt_loop
  decrypt_loop-fuel zero zero iv buf hn hm = refl
  decrypt_loop-fuel zero (suc m) iv buf hn hm =
      let few : leb (c.block_size * 2) (length buf) ≡ false = ground arith in rw few refl
  decrypt_loop-fuel (suc n) zero iv buf hn hm =
      let few : leb (c.block_size * 2) (length buf) ≡ false = ground arith in rw few refl
  decrypt_loop-fuel (suc n) (suc m) iv buf hn hm =
      elim (Bool-cases (leb (c.block_size * 2) (length buf))) [
        | inl many ↦ rw many (
            ap (λ r. (r.0, r.1, plain_block c key iv (take c.block_size buf) ++ r.2))
              (decrypt_loop-fuel n m (take c.block_size buf) (drop c.block_size buf)
                (ground (arith, length-drop c.block_size buf))
                (ground (arith, length-drop c.block_size buf))))
        | inr few ↦ rw few refl
      ]

  pub decrypt_loop-few :
      (n : ℕ) (iv buf : List ℕ)
      → leb (c.block_size * 2) (length buf) ≡ false
      → decrypt_loop c key n iv buf ≡ (iv, buf, [])
  unfolding decrypt_loop
  decrypt_loop-few zero iv buf few = refl
  decrypt_loop-few (suc n) iv buf few = rw few refl

  pub decrypt_loop-shrinks :
      (n : ℕ) (iv buf : List ℕ) → length (decrypt_loop c key n iv buf).1 ≤ length buf
  unfolding decrypt_loop
  decrypt_loop-shrinks zero iv buf = omega arith
  decrypt_loop-shrinks (suc n) iv buf = elim (Bool-cases (leb (c.block_size * 2) (length buf))) [
    | inl many ↦ rw many (
        let ih = decrypt_loop-shrinks n (take c.block_size buf) (drop c.block_size buf) in
        omega (arith, length-drop c.block_size buf))
    | inr few ↦ rw few (omega arith)
  ]

  -- The block in front of what the later rounds make.
  abbrev pub join : List ℕ → List ℕ → List ℕ × List ℕ × List ℕ → List ℕ × List ℕ × List ℕ
  join iv block r = (r.0, r.1, plain_block c key iv block ++ r.2)

  pub decrypt_loop-round :
      (n : ℕ) (iv buf : List ℕ)
      → length buf ≤ n
      → leb (c.block_size * 2) (length buf) ≡ true
      → decrypt_loop c key n iv buf
        ≡ join iv
            (take c.block_size buf)
            (decrypt_loop c key n (take c.block_size buf) (drop c.block_size buf))
  unfolding decrypt_loop
  decrypt_loop-round zero iv buf h many = absurd (ground arith)
  decrypt_loop-round (suc n) iv buf h many =
      let l = length-drop c.block_size buf in
      let shorter : length (drop c.block_size buf) ≤ n = ground arith in
      let more : length (drop c.block_size buf) ≤ suc n = omega arith in
      rw many (
        ap (join iv (take c.block_size buf)) (
          decrypt_loop-fuel n (suc n) (take c.block_size buf) (drop c.block_size buf) shorter more))

  -- Bytes that arrive later are decrypted as if they had been there.
  pub decrypt_loop-append :
      (n k : ℕ) (iv buf later : List ℕ)
      → length buf ≤ n
      → length buf + length later ≤ k
      → let r = decrypt_loop c key n iv buf in
        let s = decrypt_loop c key k r.0 (r.1 ++ later) in
        decrypt_loop c key k iv (buf ++ later) ≡ (s.0, s.1, r.2 ++ s.2)
  unfolding decrypt_loop
  decrypt_loop-append zero k iv buf later hn hk = refl
  decrypt_loop-append (suc n) k iv buf later hn hk =
      elim (Bool-cases (leb (c.block_size * 2) (length buf))) [
        | inl many ↦
            let l = length-drop c.block_size buf in
            let joined = length-append buf later in
            let block = take c.block_size buf in
            let r = decrypt_loop c key n block (drop c.block_size buf) in
            let s = decrypt_loop c key k r.0 (r.1 ++ later) in
            let ih =
              decrypt_loop-append n k block (drop c.block_size buf) later (ground arith)
                (omega arith) in
            rw many (
              decrypt_loop-round k iv (buf ++ later) (omega arith) (ground arith)
              ∙ ap (λ b. join iv b (decrypt_loop c key k b (drop c.block_size (buf ++ later))))
                  (take-append c.block_size buf later (ground arith))
              ∙ ap (λ rest. join iv block (decrypt_loop c key k block rest))
                  (drop-append c.block_size buf later (ground arith))
              ∙ ap (join iv block) ih
              ∙ ap (λ out. (s.0, s.1, out))
                  (sym (append_assoc (plain_block c key iv block) r.2 s.2)))
        | inr few ↦ rw few refl
      ]

decrypted : CbcTransform → List ℕ × List ℕ × List ℕ → CbcTransform × Transformed (List ℕ)
decrypted t r = (record t { iv = r.0; buf = r.1 }, ok r.2)

live_update :
    (c : Cipher) (t : CbcTransform) (bytes : List ℕ)
    → t.finalized ≡ false
    → update_cbc c t bytes
      ≡ decrypted t (decrypt_loop c t.key (length (t.buf ++ bytes)) t.iv (t.buf ++ bytes))
unfolding update_cbc decrypted
live_update c t bytes live =
    let r = decrypt_loop c t.key (length (t.buf ++ bytes)) t.iv (t.buf ++ bytes) in
    ap (λ b. if b then (t, err already_finalized) else (record t { iv = r.0; buf = r.1 }, ok r.2))
      live

-- The output and the transform after two pieces are those after one joined piece.
pub update_cbc-append :
    (c : Cipher) (t : CbcTransform) (xs ys : List ℕ)
    → 1 ≤ c.block_size
    → t.finalized ≡ false
    → (u : CbcTransform) × (v : CbcTransform) × (first : List ℕ) × (second : List ℕ) × (update_cbc c
          t xs
        ≡ (u, ok first))
      × (update_cbc c u ys ≡ (v, ok second))
      × (update_cbc c t (xs ++ ys) ≡ (v, ok (first ++ second)))
unfolding decrypted
update_cbc-append c t xs ys sized live =
    let buf = t.buf ++ xs in
    let n = length buf in
    let r = decrypt_loop c t.key n t.iv buf in
    let k = length (t.buf ++ (xs ++ ys)) in
    let later = r.1 ++ ys in
    let assoc = append_assoc t.buf xs ys in
    let total : n + length ys ≡ k = omega (arith, ap length assoc, length-append buf ys) in
    let fits : length later ≤ k =
      omega (arith, length-append r.1 ys, decrypt_loop-shrinks c t.key sized n t.iv buf) in
    let s = decrypt_loop c t.key (length later) r.0 later in
    (
      record t { iv = r.0; buf = r.1 },
      record t { iv = s.0; buf = s.1 },
      r.2,
      s.2,
      live_update c t xs live,
      live_update c (record t { iv = r.0; buf = r.1 }) ys live,
      live_update c t (xs ++ ys) live
          ∙ (ap (decrypted t) (
              ap (decrypt_loop c t.key k t.iv) (sym assoc)
              ∙ decrypt_loop-append c t.key sized n k t.iv buf ys (omega arith) (omega arith)
              ∙ ap (λ q. (q.0, q.1, r.2 ++ q.2))
                  (decrypt_loop-fuel c t.key sized k (length later) r.0 later fits (omega arith)))),
    )
