-- ===== src/Abi/Arena/Refused.antt =====
-- A released handle is refused by every use.
use cheetah_media_engine.Prelude.{
  ℕ, zero, suc, ◌<◌, ◌≡◌, refl, inl, inr, Bool-cases, List, [], ◌∷◌, get_elem?, set, Option, none,
  some, ◌==◌, arith,
}
use cheetah_media_engine.Abi.Arena.{
  MemoryArena, MemoryRegion, Handle, Slot, free_slot, occupied, Answer, ok, err, not_supported,
  invalid_data, buffer_too_small, would_block, closed, stale_handle, out_of_bounds, double_free,
  wrong_instance, write, overwrite, commit, cut, read, committed_bytes, release, free_at, region_at,
  validate, validate_slot, validate_occupied, as_stale,
}
use cheetah_media_engine.Abi.Arena.Handles.{
  NotThere, IsRetired, Operation, perform_all, perform_all-IsRetired,
}

abbrev pub IsRefused {ℓ} : {A : Type ℓ} → Answer A → Type 0
IsRefused (ok x) = ⊥
IsRefused (err e) = Unit {0}

-- An operation on the arena is refused, and has no effect.
abbrev pub Refuses : MemoryArena → MemoryArena × Answer ℕ → Type 0
Refuses a r = (r.0 ≡ a) × IsRefused r.1

slot-IsRefused : (h : Handle) (o : Option Slot) → NotThere h o → IsRefused (validate_slot h o)
slot-IsRefused h none n = tt
slot-IsRefused h (some (free_slot g)) n = elim (Bool-cases (g == h.generation)) [
  | inl e ↦ rw e tt
  | inr e ↦ rw e tt
]
slot-IsRefused h (some (occupied g r)) n = rw n tt

validate-IsRefused : (a : MemoryArena) (h : Handle) → IsRetired a h → IsRefused (validate a h)
unfolding validate
validate-IsRefused a h i = elim (Bool-cases (h.instance_id == a.instance_id)) [
  | inl own ↦ rw own (slot-IsRefused h (get_elem? a.slots h.slot) i.1)
  | inr foreign ↦ rw foreign tt
]

as_stale-IsRefused : (r : Answer ℕ) → IsRefused r → IsRefused (as_stale r)
as_stale-IsRefused (ok i) n = n
as_stale-IsRefused (err not_supported) n = tt
as_stale-IsRefused (err invalid_data) n = tt
as_stale-IsRefused (err buffer_too_small) n = tt
as_stale-IsRefused (err would_block) n = tt
as_stale-IsRefused (err closed) n = tt
as_stale-IsRefused (err stale_handle) n = tt
as_stale-IsRefused (err out_of_bounds) n = tt
as_stale-IsRefused (err double_free) n = tt
as_stale-IsRefused (err wrong_instance) n = tt

region_at-IsRefused : (a : MemoryArena) (r : Answer ℕ) → IsRefused r → IsRefused (region_at a r)
region_at-IsRefused a (ok i) n = absurd n
region_at-IsRefused a (err e) n = tt

-- The region that every use of a handle looks up.
use-IsRefused :
    (a : MemoryArena) (h : Handle) → IsRetired a h → IsRefused (region_at a (validate_occupied a h))
unfolding validate_occupied
use-IsRefused a h i =
    region_at-IsRefused a (validate_occupied a h)
      (as_stale-IsRefused (validate a h) (validate-IsRefused a h i))

overwrite-Refuses :
    (a : MemoryArena) (bytes : List ℕ) (r : Answer (ℕ × ℕ × MemoryRegion))
    → IsRefused r
    → Refuses a (overwrite a bytes r)
overwrite-Refuses a bytes (ok x) n = absurd n
overwrite-Refuses a bytes (err e) n = (refl, tt)

cut-Refuses :
    (a : MemoryArena) (len : ℕ) (r : Answer (ℕ × ℕ × MemoryRegion))
    → IsRefused r
    → Refuses a (cut a len r)
cut-Refuses a len (ok x) n = absurd n
cut-Refuses a len (err e) n = (refl, tt)

committed_bytes-IsRefused :
    (r : Answer (ℕ × ℕ × MemoryRegion)) → IsRefused r → IsRefused (committed_bytes r)
committed_bytes-IsRefused (ok x) n = absurd n
committed_bytes-IsRefused (err e) n = tt

free_at-Refuses : (a : MemoryArena) (g : ℕ) (r : Answer ℕ) → IsRefused r → Refuses a (free_at a g r)
free_at-Refuses a g (ok i) n = absurd n
free_at-Refuses a g (err e) n = (refl, tt)

freed-NotThere :
    (h : Handle) (slots : List Slot) (i g : ℕ)
    → NotThere h (get_elem? (set slots i (free_slot g)) i)
freed-NotThere h [] i g = omega arith
freed-NotThere h (x ∷ slots) zero g = omega arith
freed-NotThere h (x ∷ slots) (suc i) g = freed-NotThere h slots i g

-- Every use and release of a handle is refused without effect.
abbrev pub IsUseless : MemoryArena → Handle → List ℕ → ℕ → Type 0
IsUseless a h bytes len =
    Refuses a (write a h bytes)
    × Refuses a (commit a h len)
    × IsRefused (read a h)
    × Refuses a (release a h)

retired-IsUseless :
    (a : MemoryArena) (h : Handle) (bytes : List ℕ) (len : ℕ)
    → IsRetired a h
    → IsUseless a h bytes len
unfolding write commit read release
retired-IsUseless a h bytes len i =
    let gone = use-IsRefused a h i in
    let region = region_at a (validate_occupied a h) in
    (
      overwrite-Refuses a bytes region gone,
      cut-Refuses a len region gone,
      committed_bytes-IsRefused region gone,
      free_at-Refuses a h.generation (validate a h) (validate-IsRefused a h i),
    )

-- A handle that is accepted is released. After any operations on the arena then, also when its slot
-- was given out again, a write of any bytes, a commit of any length, a read and a release through the
-- handle are refused, and none of them changes the arena.
pub release-IsRefused :
    (a : MemoryArena) (h : Handle) (os : List Operation) (bytes : List ℕ) (len : ℕ)
    → h.generation < a.next_generation
    → validate a h ≡ ok h.slot
    → ((release a h).1 ≡ ok 0) × IsUseless (perform_all (release a h).0 os) h bytes len
unfolding release
release-IsRefused a h os bytes len old e = rw e (
  refl,
  retired-IsUseless _ h bytes len (
      perform_all-IsRetired
        (record a { slots = set a.slots h.slot (free_slot h.generation); free = h.slot ∷ a.free }) h
        os (old, freed-NotThere h a.slots h.slot h.generation)),
)
