-- ===== src/Bitstream/Rbsp/RoundTrip.antt =====
-- Unescaping undoes the escaping that an encoder does.
use cheetah_media_engine.Prelude.{
  ℕ, zero, suc, ◌≤◌, ◌≡◌, refl, ap, ◌∙◌, arith, true, false, ◌&&◌, List, [], ◌∷◌, ◌++◌, leb, ◌==◌,
  if◌then◌else◌, replicate, ==_iff, Bool-cases, inl, inr,
}
use cheetah_media_engine.Bitstream.Rbsp.{unescape_rbsp}

-- The escaping of a payload after `z` zero bytes: a 3 is put between two zeros and a byte up to 3.
unfoldable pub escape : ℕ → List ℕ → List ℕ
escape z [] = []
escape z (x ∷ xs) = elim (leb 2 z && leb x 3) [
  | true ↦ 3 ∷ x ∷ escape (if x == 0 then 1 else 0) xs
  | false ↦ x ∷ escape (if x == 0 then suc z else 0) xs
]

-- The zeros that are pending in front of what is still to be escaped.
abbrev pending : ℕ → List ℕ → List ℕ
pending z xs = replicate z 0 ++ xs

-- A byte that is not zero is passed through, whatever follows it.
unescape-cons :
    (x : ℕ) (xs : List ℕ) → (x == 0) ≡ false → unescape_rbsp (x ∷ xs) ≡ x ∷ unescape_rbsp xs
unfolding unescape_rbsp
unescape-cons x [] h = refl
unescape-cons x (b ∷ []) h = refl
unescape-cons x (b ∷ c ∷ xs) h = rw (h, unescape_rbsp) refl

unescape-zero :
    (x : ℕ) (xs : List ℕ)
    → (x == 0) ≡ false
    → unescape_rbsp (0 ∷ x ∷ xs) ≡ 0 ∷ unescape_rbsp (x ∷ xs)
unfolding unescape_rbsp
unescape-zero x [] h = refl
unescape-zero x (c ∷ xs) h = rw (h, unescape_rbsp) refl

unescape-zeros :
    (x : ℕ) (xs : List ℕ)
    → (x == 3) ≡ false
    → unescape_rbsp (0 ∷ 0 ∷ x ∷ xs) ≡ 0 ∷ unescape_rbsp (0 ∷ x ∷ xs)
unfolding unescape_rbsp
unescape-zeros x xs h = rw (h, unescape_rbsp) refl

unescape-protected :
    (x : ℕ) (xs : List ℕ)
    → leb x 3 ≡ true
    → unescape_rbsp (0 ∷ 0 ∷ 3 ∷ x ∷ xs) ≡ 0 ∷ 0 ∷ unescape_rbsp (x ∷ xs)
unfolding unescape_rbsp
unescape-protected x xs h = rw (h, unescape_rbsp) refl

-- What is to be shown of the rest of a payload.
abbrev Restores : List ℕ → Type 0
Restores xs = (z : ℕ) → z ≤ 2 → unescape_rbsp (pending z (escape z xs)) ≡ pending z xs

-- A byte that is not zero, and what follows it.
restored_cons :
    (x : ℕ) (xs : List ℕ)
    → Restores xs
    → (x == 0) ≡ false
    → unescape_rbsp (x ∷ escape 0 xs) ≡ x ∷ xs
restored_cons x xs r h = unescape-cons x (escape 0 xs) h ∙ ap (λ ys. x ∷ ys) (r 0 (omega arith))

restored_zero :
    (x : ℕ) (xs : List ℕ)
    → Restores xs
    → (x == 0) ≡ false
    → unescape_rbsp (0 ∷ x ∷ escape 0 xs) ≡ 0 ∷ x ∷ xs
restored_zero x xs r h =
    unescape-zero x (escape 0 xs) h ∙ ap (λ ys. 0 ∷ ys) (restored_cons x xs r h)

restored_fresh :
    (x : ℕ) (xs : List ℕ)
    → Restores xs
    → unescape_rbsp (x ∷ escape (if x == 0 then 1 else 0) xs) ≡ x ∷ xs
restored_fresh x xs r = elim (Bool-cases (x == 0)) [
  | inl null ↦ let e : x ≡ 0 = (==_iff x 0).0 null in rw e (r 1 (omega arith))
  | inr other ↦ rw other (restored_cons x xs r other)
]

restored_after :
    (z x : ℕ) (xs : List ℕ)
    → z ≤ 2
    → Restores xs
    → unescape_rbsp (pending z (escape z (x ∷ xs))) ≡ pending z (x ∷ xs)
unfolding escape
restored_after zero x xs h r = restored_fresh x xs r
restored_after (suc zero) x xs h r = elim (Bool-cases (x == 0)) [
  | inl null ↦ let e : x ≡ 0 = (==_iff x 0).0 null in rw e (r 2 (omega arith))
  | inr other ↦ rw other (restored_zero x xs r other)
]
restored_after (suc (suc zero)) x xs h r = elim (Bool-cases (leb x 3)) [
  | inl low ↦
      rw (low, escape)
        (unescape-protected x (escape (if x == 0 then 1 else 0) xs) low
          ∙ ap (λ ys. 0 ∷ 0 ∷ ys) (restored_fresh x xs r))
  | inr high ↦
      let other : (x == 0) ≡ false = ground arith in
      rw (high, other, escape)
        (unescape-zeros x (escape 0 xs) (ground arith)
          ∙ ap (λ ys. 0 ∷ ys) (restored_zero x xs r other))
]
restored_after (suc (suc (suc z))) x xs h r = absurd (omega arith)

restored_nil : (z : ℕ) → z ≤ 2 → unescape_rbsp (pending z []) ≡ pending z []
unfolding unescape_rbsp
restored_nil zero h = refl
restored_nil (suc zero) h = refl
restored_nil (suc (suc zero)) h = refl
restored_nil (suc (suc (suc z))) h = absurd (omega arith)

unescape-escape : (xs : List ℕ) → Restores xs
unfolding escape
unescape-escape [] z h = restored_nil z h
unescape-escape (x ∷ xs) z h = restored_after z x xs h (unescape-escape xs)

-- Unescaping the escaped form of any payload gives back the payload.
pub unescape_rbsp-escape : (xs : List ℕ) → unescape_rbsp (escape 0 xs) ≡ xs
unescape_rbsp-escape xs = unescape-escape xs 0 (omega arith)
