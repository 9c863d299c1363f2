-- ===== src/Abi/Arena/Handles.antt =====
-- A handle whose region was released stays without one, whatever is done with the arena.
use cheetah_media_engine.Prelude.{
  ℕ, zero, suc, ◌+◌, ◌<◌, ◌≡◌, refl, subst, inl, inr, Bool-cases, List, [], ◌∷◌, ◌++◌, length,
  get_elem?, set, Option, none, some, false, ltb, ◌==◌, arith, u64_max, u32_max,
}
use cheetah_media_engine.Abi.Arena.{
  MemoryArena, MemoryRegion, Handle, Slot, free_slot, occupied, Answer, AbiError, ok, err, request,
  store_region, write, overwrite, commit, cut, release, free_at, store, then_ok, fill, region_of,
  region_at, validate, validate_occupied, max_region, new_region,
}

-- The slot does not hold the region of the handle.
abbrev pub NotThere : Handle → Option Slot → Type 0
NotThere h none = 0 < 1
NotThere h (some (free_slot g)) = 0 < 1
NotThere h (some (occupied g r)) = (g == h.generation) ≡ false

abbrev pub IsRetired : MemoryArena → Handle → Type 0
IsRetired a h = (h.generation < a.next_generation) × NotThere h (get_elem? a.slots h.slot)

-- Writes to a slot that keep a handle out of it.
set-NotThere :
    (h : Handle) (slots : List Slot) (i j : ℕ) (s : Slot)
    → NotThere h (get_elem? slots j)
    → NotThere h (some s)
    → NotThere h (get_elem? (set slots i s) j)
set-NotThere h [] i j s n k = n
set-NotThere h (x ∷ slots) zero zero s n k = k
set-NotThere h (x ∷ slots) zero (suc j) s n k = n
set-NotThere h (x ∷ slots) (suc i) zero s n k = n
set-NotThere h (x ∷ slots) (suc i) (suc j) s n k = set-NotThere h slots i j s n k

push-NotThere :
    (h : Handle) (slots : List Slot) (j : ℕ) (s : Slot)
    → NotThere h (get_elem? slots j)
    → NotThere h (some s)
    → NotThere h (get_elem? (slots ++ s ∷ []) j)
push-NotThere h [] zero s n k = k
push-NotThere h [] (suc j) s n k = n
push-NotThere h (x ∷ slots) zero s n k = n
push-NotThere h (x ∷ slots) (suc j) s n k = push-NotThere h slots j s n k

-- A region that is replaced in its own slot.
put-NotThere :
    (h : Handle) (slots : List Slot) (i j g : ℕ) (r q : MemoryRegion)
    → get_elem? slots i ≡ some (occupied g r)
    → NotThere h (get_elem? slots j)
    → NotThere h (get_elem? (set slots i (occupied g q)) j)
put-NotThere h [] i j g r q e n = n
put-NotThere h (x ∷ slots) zero zero g r q e n = subst (NotThere h) e n
put-NotThere h (x ∷ slots) zero (suc j) g r q e n = n
put-NotThere h (x ∷ slots) (suc i) zero g r q e n = n
put-NotThere h (x ∷ slots) (suc i) (suc j) g r q e n = put-NotThere h slots i j g r q e n

module _ (a : MemoryArena) (h : Handle) (retired : IsRetired a h) where
  overwrite-IsRetired :
      (bytes : List ℕ) (i : ℕ) (o : Option Slot)
      → get_elem? a.slots i ≡ o
      → IsRetired (overwrite a bytes (region_of i o)).0 h
  overwrite-IsRetired bytes i none e = retired
  overwrite-IsRetired bytes i (some (free_slot g)) e = retired
  overwrite-IsRetired bytes i (some (occupied g r)) e =
      elim (Bool-cases (ltb (length r.bytes) (length bytes))) [
        | inl long ↦ rw long retired
        | inr fits ↦ rw fits (retired.0, put-NotThere h a.slots i h.slot g r _ e retired.1)
      ]

  cut-IsRetired :
      (len i : ℕ) (o : Option Slot)
      → get_elem? a.slots i ≡ o
      → IsRetired (cut a len (region_of i o)).0 h
  cut-IsRetired len i none e = retired
  cut-IsRetired len i (some (free_slot g)) e = retired
  cut-IsRetired len i (some (occupied g r)) e = elim (Bool-cases (ltb (length r.bytes) len)) [
    | inl long ↦ rw long retired
    | inr fits ↦ rw fits (retired.0, put-NotThere h a.slots i h.slot g r _ e retired.1)
  ]

  at-IsRetired :
      (v : Answer ℕ) (f : Answer (ℕ × ℕ × MemoryRegion) → MemoryArena × Answer ℕ)
      → ((e : AbiError) → IsRetired (f (err e)).0 h)
      → ((i : ℕ) (o : Option Slot) → get_elem? a.slots i ≡ o → IsRetired (f (region_of i o)).0 h)
      → IsRetired (f (region_at a v)).0 h
  at-IsRetired (err e) f bad good = bad e
  at-IsRetired (ok i) f bad good = good i (get_elem? a.slots i) refl

  write-IsRetired : (k : Handle) (bytes : List ℕ) → IsRetired (write a k bytes).0 h
  unfolding write
  write-IsRetired k bytes =
      at-IsRetired (validate_occupied a k) (overwrite a bytes) (λ e. retired)
        (overwrite-IsRetired bytes)

  commit-IsRetired : (k : Handle) (len : ℕ) → IsRetired (commit a k len).0 h
  unfolding commit
  commit-IsRetired k len =
      at-IsRetired (validate_occupied a k) (cut a len) (λ e. retired) (cut-IsRetired len)

  free_at-IsRetired : (g : ℕ) (v : Answer ℕ) → IsRetired (free_at a g v).0 h
  free_at-IsRetired g (err e) = retired
  free_at-IsRetired g (ok i) =
      (retired.0, set-NotThere h a.slots i h.slot (free_slot g) retired.1 (omega arith))

  release-IsRetired : (k : Handle) → IsRetired (release a k).0 h
  unfolding release
  release-IsRetired k = free_at-IsRetired k.generation (validate a k)

  newer : (a.next_generation == h.generation) ≡ false
  newer = ground (arith, retired.0)

  store_region-IsRetired :
      (r : MemoryRegion) (free : List ℕ)
      → IsRetired
          (store_region
            (record a { next_generation = a.next_generation + 1 })
            a.next_generation
            r
            free).0
          h
  store_region-IsRetired r (i ∷ rest) = (
    omega (arith, retired.0),
    set-NotThere h a.slots i h.slot (occupied a.next_generation r) retired.1 newer,
  )
  store_region-IsRetired r [] = elim (Bool-cases (ltb u32_max (length a.slots))) [
    | inl full ↦ rw full (omega (arith, retired.0), retired.1)
    | inr room ↦ rw room (
      omega (arith, retired.0),
      push-NotThere h a.slots h.slot (occupied a.next_generation r) retired.1 newer,
    )
  ]

  request-IsRetired : (size : ℕ) → IsRetired (request a size).0 h
  unfolding request
  request-IsRetired size = elim (Bool-cases (size == 0)) [
    | inl z ↦ rw z retired
    | inr nz ↦ elim (Bool-cases (ltb max_region size)) [
      | inl big ↦ rw (nz, big) retired
      | inr fits ↦ elim (Bool-cases (ltb a.next_generation u64_max)) [
        | inl more ↦ rw (nz, fits, more) (store_region-IsRetired (new_region size) a.free)
        | inr last ↦ rw (nz, fits, last) retired
      ]
    ]
  ]

then_ok-IsRetired {ℓ} :
    {A : Type ℓ} (h : Handle) (r : MemoryArena × Answer A)
    (f : MemoryArena → A → MemoryArena × Answer Handle)
    → IsRetired r.0 h
    → ((a : MemoryArena) (x : A) → IsRetired a h → IsRetired (f a x).0 h)
    → IsRetired (then_ok r f).0 h
then_ok-IsRetired h (a, err e) f i k = i
then_ok-IsRetired h (a, ok x) f i k = k a x i

store-IsRetired :
    (a : MemoryArena) (h : Handle) (bytes : List ℕ) → IsRetired a h → IsRetired (store a bytes).0 h
unfolding store
store-IsRetired a h bytes i = elim (Bool-cases (length bytes == 0)) [
  | inl z ↦ rw z i
  | inr nz ↦ rw nz (
      then_ok-IsRetired h (request a (length bytes)) (fill bytes)
        (request-IsRetired a h i (length bytes))
        (λ b k i.
          then_ok-IsRetired h (write b k bytes)
            (λ c x. then_ok (commit c k (length bytes)) (λ d y. (d, ok k)))
            (write-IsRetired b h i k bytes)
            (λ c x i.
              then_ok-IsRetired h (commit c k (length bytes)) (λ d y. (d, ok k))
                (commit-IsRetired c h i k (length bytes)) (λ d y i. i))))
]

-- The operations that change an arena.
pub data Operation : Type 0 where
  request_of : ℕ → Operation
  store_of : List ℕ → Operation
  write_to : Handle → List ℕ → Operation
  commit_to : Handle → ℕ → Operation
  release_of : Handle → Operation

abbrev pub perform : MemoryArena → Operation → MemoryArena
perform a (request_of size) = (request a size).0
perform a (store_of bytes) = (store a bytes).0
perform a (write_to k bytes) = (write a k bytes).0
perform a (commit_to k len) = (commit a k len).0
perform a (release_of k) = (release a k).0

abbrev pub perform_all : MemoryArena → List Operation → MemoryArena
perform_all a [] = a
perform_all a (o ∷ os) = perform_all (perform a o) os

perform-IsRetired :
    (a : MemoryArena) (h : Handle) (o : Operation) → IsRetired a h → IsRetired (perform a o) h
perform-IsRetired a h (request_of size) i = request-IsRetired a h i size
perform-IsRetired a h (store_of bytes) i = store-IsRetired a h bytes i
perform-IsRetired a h (write_to k bytes) i = write-IsRetired a h i k bytes
perform-IsRetired a h (commit_to k len) i = commit-IsRetired a h i k len
perform-IsRetired a h (release_of k) i = release-IsRetired a h i k

pub perform_all-IsRetired :
    (a : MemoryArena) (h : Handle) (os : List Operation)
    → IsRetired a h
    → IsRetired (perform_all a os) h
perform_all-IsRetired a h [] i = i
perform_all-IsRetired a h (o ∷ os) i =
    perform_all-IsRetired (perform a o) h os (perform-IsRetired a h o i)
