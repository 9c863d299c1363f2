-- ===== src/Crypto/Xor/Stream.antt =====
-- The transform as a stream cipher: pieces do not matter, and it undoes itself.
use Prim.Native.Nat.{bit_xor}
use native.Mathlib.Nat.{mod-lt, mod-eq_of_lt, mod-add-mod, mod_self}
use cheetah_media_engine.Prelude.{
  suc, ◌+◌, ◌%◌, ◌<◌, length, ◌==◌, if◌then◌else◌, arith, sym, Bool-cases, inl, inr, ℕ, ◌≡◌, refl,
  ap, ◌∙◌, List, [], ◌∷◌, ◌++◌, get_or,
}
use cheetah_media_engine.Crypto.Bytes.{xor_twice, AreBytes, get_or-byte}
use cheetah_media_engine.Crypto.Xor.{XorTransform, update_xor, next_position}

-- Two updates give what one update of the joined bytes gives.
pub update_xor-append :
    (t : XorTransform) (xs ys : List ℕ)
    → update_xor t (xs ++ ys) ≡ (
      (update_xor (update_xor t xs).0 ys).0,
      (update_xor t xs).1 ++ (update_xor (update_xor t xs).0 ys).1,
    )
unfolding update_xor
update_xor-append t [] ys = refl
update_xor-append t (x ∷ xs) ys =
    let r = update_xor-append (record t { position = next_position t }) xs ys in
    ap (λ q. (q.0, bit_xor x (get_or t.key t.position 0) ∷ q.1)) r

-- The bytes with the key laid over them, again and again, from a place of the key on.
abbrev pub keyed : List ℕ → ℕ → List ℕ → List ℕ
keyed key n [] = []
keyed key n (b ∷ bytes) = bit_xor b (get_or key (n % length key) 0) ∷ keyed key (n + 1) bytes

-- The place after `n`, as the source computes it.
next_place : (n len : ℕ) → 0 < len → (if n % len + 1 == len then 0 else n % len + 1) ≡ (n + 1) % len
next_place n len h =
    let small = mod-lt n h in
    elim (Bool-cases (n % len + 1 == len)) [
      | inl end ↦
          let e : n % len + 1 ≡ len = ground arith in
          rw end (sym (sym (mod-add-mod n len 1) ∙ ap (λ (k : ℕ). k % len) e ∙ mod_self len))
      | inr more ↦
          let lt : n % len + 1 < len = ground arith in
          rw more (sym (sym (mod-add-mod n len 1) ∙ mod-eq_of_lt lt))
    ]

update_xor_from :
    (t : XorTransform) (n : ℕ) (bytes : List ℕ)
    → 0 < length t.key
    → t.position ≡ n % length t.key
    → update_xor t bytes
      ≡ (record t { position = (n + length bytes) % length t.key }, keyed t.key n bytes)
unfolding update_xor
update_xor_from t n [] h e =
    let zero : n + 0 ≡ n = omega arith in
    ap (λ p. (record t { position = p }, [])) (e ∙ ap (λ (k : ℕ). k % length t.key) (sym zero))
update_xor_from t n (b ∷ bytes) h e =
    let len = length t.key in
    let next : next_position t ≡ (n + 1) % len =
      ap (λ (k : ℕ). if k + 1 == len then 0 else k + 1) e ∙ next_place n len h in
    let rest = update_xor_from (record t { position = next_position t }) (n + 1) bytes h next in
    let shift : n + 1 + length bytes ≡ n + suc (length bytes) = omega arith in
    ap (λ q. (q.0, bit_xor b (get_or t.key t.position 0) ∷ q.1)) rest ∙ rw (e, shift) refl

-- An update from a place within the key is the byte-wise exclusive or with the key, repeated from that
-- place on: the byte at index `i` meets the byte of the key at the place plus `i`, modulo the length of
-- the key. The transform is left at the place of the byte that comes next.
pub update_xor-keyed :
    (t : XorTransform) (bytes : List ℕ)
    → t.position < length t.key
    → update_xor t bytes ≡ (
      record t { position = (t.position + length bytes) % length t.key },
      keyed t.key t.position bytes,
    )
update_xor-keyed t bytes h = update_xor_from t t.position bytes (omega arith) (sym (mod-eq_of_lt h))

-- The transform, run on its own output from the same key and position, gives the bytes back, and
-- ends at the same position.
pub update_xor_twice :
    (t : XorTransform) (bytes : List ℕ)
    → AreBytes t.key
    → AreBytes bytes
    → update_xor t (update_xor t bytes).1 ≡ ((update_xor t bytes).0, bytes)
unfolding update_xor
update_xor_twice t [] hk hb = refl
update_xor_twice t (b ∷ bytes) hk hb =
    let r = update_xor_twice (record t { position = next_position t }) bytes hk hb.1 in
    ap
      (λ q.
        (q.0, bit_xor (bit_xor b (get_or t.key t.position 0)) (get_or t.key t.position 0) ∷ q.1))
      r
    ∙ ap (λ c. ((update_xor t (b ∷ bytes)).0, c ∷ bytes))
        (xor_twice b (get_or t.key t.position 0) hb.0 (get_or-byte t.key t.position hk))
