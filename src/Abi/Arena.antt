-- ===== src/Abi/Arena.antt =====
-- crates/cheetah-media-abi/src/arena.rs, handle.rs and error.rs: the arena of memory regions.
pub mod Handles
pub mod Refused
pub mod Contents
mod Tests
use cheetah_media_engine.Prelude.{
  ℕ, suc, ◌+◌, ◌-◌, ◌^◌, Bool, true, false, not, ◌&&◌, List, [], ◌∷◌, ◌++◌, length, get_elem?, set,
  take, drop, replicate, Option, none, some, u32_max, u64_max, ltb, leb, ◌==◌, if◌then◌else◌,
}

pub data AbiError : Type 0 where
  not_supported invalid_data buffer_too_small would_block closed stale_handle out_of_bounds
        double_free wrong_instance :
      AbiError

-- `Result<A, AbiError>`.
pub data Answer {ℓ} (A : Type ℓ) : Type ℓ where
  ok : A → Answer A
  err : AbiError → Answer A

pub record Handle : Type 0 where
  pub instance_id : ℕ
  pub slot : ℕ
  pub generation : ℕ

pub record MemoryRegion : Type 0 where
  pub bytes : List ℕ
  pub committed : ℕ

abbrev pub new_region : ℕ → MemoryRegion
new_region size = record { bytes = replicate size 0; committed = size }

-- `truncate` keeps a shorter vector as it is.
abbrev pub commit_region : MemoryRegion → ℕ → MemoryRegion
commit_region r len =
    let kept = if ltb len (length r.bytes) then take len r.bytes else r.bytes in
    record { bytes = kept; committed = length kept }

pub data Slot : Type 0 where
  free_slot : ℕ → Slot
  occupied : ℕ → MemoryRegion → Slot

pub record MemoryArena : Type 0 where
  pub instance_id : ℕ
  pub slots : List Slot
  pub free : List ℕ
  pub next_generation : ℕ

abbrev pub new_arena : ℕ → MemoryArena
new_arena instance_id = record {
  instance_id = instance_id;
  slots = [];
  free = [];
  next_generation = 1;
}

-- `isize::MAX` is greater than this on a 64-bit target.
abbrev pub max_region : ℕ
max_region = u32_max - 1

abbrev pub handle_to : MemoryArena → ℕ → ℕ → Answer Handle
handle_to a generation i =
    ok record { instance_id = a.instance_id; slot = i; generation = generation }

-- `slots[index]` for an index from the free list, and the end of the slots if the list is empty;
-- `free` is kept with its last element first.
abbrev pub store_region : MemoryArena → ℕ → MemoryRegion → List ℕ → MemoryArena × Answer Handle
store_region a generation region (i ∷ rest) = (
  record a { slots = set a.slots i (occupied generation region); free = rest },
  handle_to a generation i,
)
store_region a generation region [] =
    if ltb u32_max (length a.slots) then (a, err out_of_bounds) else (
      record a { slots = a.slots ++ occupied generation region ∷ [] },
      handle_to a generation (length a.slots),
    )

-- The handle; the descriptor that the source returns with it is made of the region's address.
unfoldable pub request : MemoryArena → ℕ → MemoryArena × Answer Handle
request a size =
    if size == 0
    then (a, err invalid_data)
    else if ltb max_region size
    then (a, err out_of_bounds)
    else if ltb a.next_generation u64_max
    then store_region (record a { next_generation = a.next_generation + 1 }) a.next_generation
        (new_region size) a.free
    else (a, err out_of_bounds)

abbrev pub validate_slot : Handle → Option Slot → Answer ℕ
validate_slot h none = err out_of_bounds
validate_slot h (some (free_slot g)) =
    if g == h.generation then err double_free else err stale_handle
validate_slot h (some (occupied g r)) = if g == h.generation then ok h.slot else err stale_handle

unfoldable pub validate : MemoryArena → Handle → Answer ℕ
validate a h =
    if not (h.instance_id == a.instance_id)
    then err wrong_instance
    else validate_slot h (get_elem? a.slots h.slot)

abbrev pub as_stale : Answer ℕ → Answer ℕ
as_stale (ok i) = ok i
as_stale (err double_free) = err stale_handle
as_stale (err e) = err e

unfoldable pub validate_occupied : MemoryArena → Handle → Answer ℕ
validate_occupied a h = as_stale (validate a h)

abbrev pub region_of : ℕ → Option Slot → Answer (ℕ × ℕ × MemoryRegion)
region_of i (some (occupied g r)) = ok (i, g, r)
region_of i (some (free_slot g)) = err stale_handle
region_of i none = err stale_handle

-- The region of a validated index.
abbrev pub region_at : MemoryArena → Answer ℕ → Answer (ℕ × ℕ × MemoryRegion)
region_at a (err e) = err e
region_at a (ok i) = region_of i (get_elem? a.slots i)

abbrev pub put_region : MemoryArena → ℕ → ℕ → MemoryRegion → MemoryArena
put_region a i g r = record a { slots = set a.slots i (occupied g r) }

abbrev pub overwrite : MemoryArena → List ℕ → Answer (ℕ × ℕ × MemoryRegion) → MemoryArena × Answer ℕ
overwrite a bytes (err e) = (a, err e)
overwrite a bytes (ok (i, g, r)) =
    if ltb (length r.bytes) (length bytes)
    then (a, err out_of_bounds)
    else (put_region a i g (record r { bytes = bytes ++ drop (length bytes) r.bytes }), ok 0)

-- A success of `write`, `commit` or `release` carries no value in the source.
unfoldable pub write : MemoryArena → Handle → List ℕ → MemoryArena × Answer ℕ
write a h bytes = overwrite a bytes (region_at a (validate_occupied a h))

abbrev pub cut : MemoryArena → ℕ → Answer (ℕ × ℕ × MemoryRegion) → MemoryArena × Answer ℕ
cut a len (err e) = (a, err e)
cut a len (ok (i, g, r)) =
    if ltb (length r.bytes) len
    then (a, err out_of_bounds)
    else (put_region a i g (commit_region r len), ok 0)

unfoldable pub commit : MemoryArena → Handle → ℕ → MemoryArena × Answer ℕ
commit a h len = cut a len (region_at a (validate_occupied a h))

abbrev pub committed_bytes : Answer (ℕ × ℕ × MemoryRegion) → Answer (List ℕ)
committed_bytes (err e) = err e
committed_bytes (ok (i, g, r)) = ok (take r.committed r.bytes)

unfoldable pub read : MemoryArena → Handle → Answer (List ℕ)
read a h = committed_bytes (region_at a (validate_occupied a h))

abbrev pub free_at : MemoryArena → ℕ → Answer ℕ → MemoryArena × Answer ℕ
free_at a generation (err e) = (a, err e)
free_at a generation (ok i) =
    (record a { slots = set a.slots i (free_slot generation); free = i ∷ a.free }, ok 0)

unfoldable pub release : MemoryArena → Handle → MemoryArena × Answer ℕ
release a h = free_at a h.generation (validate a h)

abbrev pub then_ok {ℓ} :
    {A : Type ℓ}
    → MemoryArena × Answer A
    → (MemoryArena → A → MemoryArena × Answer Handle)
    → MemoryArena × Answer Handle
then_ok (a, err e) f = (a, err e)
then_ok (a, ok x) f = f a x

-- The requested region is written and committed.
abbrev pub fill : List ℕ → MemoryArena → Handle → MemoryArena × Answer Handle
fill bytes a h =
    then_ok (write a h bytes) (λ a x. then_ok (commit a h (length bytes)) (λ a x. (a, ok h)))

unfoldable pub store : MemoryArena → List ℕ → MemoryArena × Answer Handle
store a bytes =
    if length bytes == 0
    then (a, err invalid_data)
    else then_ok (request a (length bytes)) (fill bytes)

pub occupied_count : List Slot → ℕ
occupied_count [] = 0
occupied_count (free_slot g ∷ slots) = occupied_count slots
occupied_count (occupied g r ∷ slots) = suc (occupied_count slots)
