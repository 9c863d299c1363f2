-- ===== src/Abi/Arena/Contents.antt =====
-- What a region holds.
use cheetah_media_engine.Prelude.{
  ℕ, zero, suc, ◌+◌, ◌<◌, ◌≤◌, ◌≡◌, refl, sym, ap, ◌∙◌, subst, List, [], ◌∷◌, ◌++◌, length,
  get_elem?, set, take, drop, append-nil, length-append, length-replicate, Option, none, some, true,
  false, ltb, ◌==◌, ==_iff, arith, u64_max, u32_max,
}
use cheetah_media_engine.Abi.Arena.{
  MemoryArena, MemoryRegion, Handle, Slot, occupied, ok, request, store_region, write, overwrite,
  commit, cut, store, then_ok, fill, region_of, region_at, validate, validate_occupied, read,
  max_region, new_region, commit_region, put_region, committed_bytes,
}

-- A handle of the arena with its region in its slot.
abbrev pub Holds : MemoryArena → Handle → MemoryRegion → Type 0
Holds a h r =
    (h.instance_id ≡ a.instance_id) × (get_elem? a.slots h.slot ≡ some (occupied h.generation r))

same : (n : ℕ) → (n == n) ≡ true
same n = ground arith

Holds-valid :
    (a : MemoryArena) (h : Handle) (r : MemoryRegion)
    → Holds a h r
    → validate_occupied a h ≡ ok h.slot
unfolding validate_occupied validate
Holds-valid a h r i =
    let e : (h.instance_id == a.instance_id) ≡ true = (==_iff _ _).1 i.0 in
    rw (e, i.1, same h.generation) refl

Holds-region :
    (a : MemoryArena) (h : Handle) (r : MemoryRegion)
    → Holds a h r
    → region_at a (validate_occupied a h) ≡ ok (h.slot, h.generation, r)
Holds-region a h r i = ap (region_at a) (Holds-valid a h r i) ∙ ap (region_of h.slot) i.1

drop-all : (n : ℕ) (xs : List ℕ) → length xs ≤ n → drop n xs ≡ []
drop-all zero [] h = refl
drop-all zero (x ∷ xs) h = absurd (omega arith)
drop-all (suc n) [] h = refl
drop-all (suc n) (x ∷ xs) h = drop-all n xs (omega arith)

take-all : (n : ℕ) (xs : List ℕ) → length xs ≡ n → take n xs ≡ xs
take-all zero [] h = refl
take-all zero (x ∷ xs) h = absurd (omega arith)
take-all (suc n) [] h = refl
take-all (suc n) (x ∷ xs) h = ap (λ ys. x ∷ ys) (take-all n xs (omega arith))

-- A slot that is there can be set.
abbrev IsPresent : Option Slot → Type 0
IsPresent none = 1 ≤ 0
IsPresent (some s) = 0 ≤ 0

set-Present :
    (slots : List Slot) (i : ℕ) (s : Slot)
    → IsPresent (get_elem? slots i)
    → get_elem? (set slots i s) i ≡ some s
set-Present [] i s p = absurd (omega arith)
set-Present (x ∷ slots) zero s p = refl
set-Present (x ∷ slots) (suc i) s p = set-Present slots i s p

Holds-put :
    (a : MemoryArena) (h : Handle) (r q : MemoryRegion)
    → Holds a h r
    → Holds (put_region a h.slot h.generation q) h q
Holds-put a h r q i = (
  i.0,
  set-Present a.slots h.slot (occupied h.generation q) (subst IsPresent (sym i.1) (omega arith)),
)

write-Holds :
    (a : MemoryArena) (h : Handle) (r : MemoryRegion) (bytes : List ℕ)
    → Holds a h r
    → length bytes ≤ length r.bytes
    → let q = record r { bytes = bytes ++ drop (length bytes) r.bytes } in
      write a h bytes ≡ (put_region a h.slot h.generation q, ok 0)
unfolding write
write-Holds a h r bytes i fit =
    let t : ltb (length r.bytes) (length bytes) ≡ false = ground arith in
    ap (overwrite a bytes) (Holds-region a h r i) ∙ rw t refl

commit-Holds :
    (a : MemoryArena) (h : Handle) (r : MemoryRegion) (len : ℕ)
    → Holds a h r
    → len ≤ length r.bytes
    → commit a h len ≡ (put_region a h.slot h.generation (commit_region r len), ok 0)
unfolding commit
commit-Holds a h r len i fit =
    let t : ltb (length r.bytes) len ≡ false = ground arith in
    ap (cut a len) (Holds-region a h r i) ∙ rw t refl

read-Holds :
    (a : MemoryArena) (h : Handle) (r : MemoryRegion)
    → Holds a h r
    → read a h ≡ ok (take r.committed r.bytes)
unfolding read
read-Holds a h r i = ap committed_bytes (Holds-region a h r i)

-- The free list names slots.
abbrev pub AreSlots : List Slot → List ℕ → Type 0
AreSlots slots [] = 0 ≤ 0
AreSlots slots (i ∷ free) = IsPresent (get_elem? slots i) × AreSlots slots free

pushed : (slots : List Slot) (s : Slot) → get_elem? (slots ++ s ∷ []) (length slots) ≡ some s
pushed [] s = refl
pushed (x ∷ slots) s = pushed slots s

store_region-Holds :
    (a : MemoryArena) (g : ℕ) (r : MemoryRegion) (free : List ℕ)
    → AreSlots a.slots free
    → length a.slots ≤ u32_max
    → (b : MemoryArena) × (h : Handle) × (store_region a g r free ≡ (b, ok h)) × Holds b h r
store_region-Holds a g r (i ∷ rest) p room =
    (_, _, refl, (refl, set-Present a.slots i (occupied g r) p.0))
store_region-Holds a g r [] p room =
    let t : ltb u32_max (length a.slots) ≡ false = ground arith in
    (
      record a { slots = a.slots ++ occupied g r ∷ [] },
      record { instance_id = a.instance_id; slot = length a.slots; generation = g },
      rw t refl,
      (refl, pushed a.slots (occupied g r)),
    )

request-Holds :
    (a : MemoryArena) (size : ℕ)
    → AreSlots a.slots a.free
    → 0 < size
    → size ≤ max_region
    → a.next_generation < u64_max
    → length a.slots ≤ u32_max
    → (b : MemoryArena) × (h : Handle) × (request a size ≡ (b, ok h)) × Holds b h (new_region size)
unfolding request
request-Holds a size p positive fit young room =
    let t1 : (size == 0) ≡ false = ground arith in
    let t2 : ltb max_region size ≡ false = ground arith in
    let t3 : ltb a.next_generation u64_max ≡ true = ground arith in
    rw (t1, t2, t3)
      (store_region-Holds (record a { next_generation = a.next_generation + 1 }) a.next_generation
        (new_region size) a.free p room)

-- A region of the right size, written and committed.
fill-Holds :
    (a : MemoryArena) (h : Handle) (bytes : List ℕ)
    → Holds a h (new_region (length bytes))
    → (b : MemoryArena) × (fill bytes a h ≡ (b, ok h))
      × Holds b h (record { bytes = bytes; committed = length bytes })
fill-Holds a h bytes i =
    let r : MemoryRegion = new_region (length bytes) in
    let size : length r.bytes ≡ length bytes = length-replicate (length bytes) 0 in
    let q : MemoryRegion = record r { bytes = bytes ++ drop (length bytes) r.bytes } in
    let b = put_region a h.slot h.generation q in
    let j = Holds-put a h r q i in
    let long : length q.bytes ≡ length bytes + length (drop (length bytes) r.bytes) =
      length-append bytes (drop (length bytes) r.bytes) in
    let all : drop (length bytes) r.bytes ≡ [] = drop-all (length bytes) r.bytes (omega arith) in
    let e : q.bytes ≡ bytes = ap (λ xs. bytes ++ xs) all ∙ append-nil bytes in
    let t : ltb (length bytes) (length bytes) ≡ false = ground arith in
    let region : commit_region q (length bytes)
        ≡ record { bytes = bytes; committed = length bytes } =
      rw (e, t) refl in
    (
      put_region b h.slot h.generation (commit_region q (length bytes)),
      ap (λ w. then_ok w (λ c x. then_ok (commit c h (length bytes)) (λ d y. (d, ok h))))
            (write-Holds a h r bytes i (omega arith))
          ∙ ap (λ w. then_ok w (λ d y. (d, ok h)))
              (commit-Holds b h q (length bytes) j (omega arith)),
      subst (Holds (put_region b h.slot h.generation (commit_region q (length bytes))) h) region
          (Holds-put b h q (commit_region q (length bytes)) j),
    )

-- What is stored is read back through the handle, as long as its length fits a region and the
-- counters of the arena are not used up.
pub read-store :
    (a : MemoryArena) (bytes : List ℕ)
    → AreSlots a.slots a.free
    → 0 < length bytes
    → length bytes ≤ max_region
    → a.next_generation < u64_max
    → length a.slots ≤ u32_max
    → (b : MemoryArena) × (h : Handle) × (store a bytes ≡ (b, ok h)) × (read b h ≡ ok bytes)
unfolding store
read-store a bytes p positive fit young room =
    let t1 : (length bytes == 0) ≡ false = ground arith in
    let r = request-Holds a (length bytes) p positive fit young room in
    let f = fill-Holds r.0 r.1 bytes r.3 in
    (
      f.0,
      r.1,
      rw t1 (ap (λ w. then_ok w (fill bytes)) r.2 ∙ f.1),
      read-Holds f.0 r.1 (record { bytes = bytes; committed = length bytes }) f.2
          ∙ ap ok (take-all (length bytes) bytes refl),
    )
