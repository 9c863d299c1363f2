-- ===== src/Engine/Resource/Counts.antt =====
-- The ledger's counts: acquire and release, the total, and what "zero" means.
use cheetah_media_engine.Prelude.{
  ℕ, zero, suc, ◌+◌, ◌-◌, ◌≤◌, ◌<◌, ◌≡◌, ◌≢◌, ◌↔◌, refl, ap, ◌∙◌, subst, arith, true, false, List,
  [], ◌∷◌, get_or, set, length-set, Bool-cases, inl, inr, set-set, set-get_or, get_or-set_self,
  get_or-set_ne, length, sat_add, u64_max, ◌==◌,
}
use cheetah_media_engine.Engine.Resource.{
  ResourceKind, network, timer, worker, wasm_handle, decoder, frame, audio, gpu, url, listener, idx,
  ResourceLedger, count, acquire, release, sum_from, total, all_zero, is_zero, open_from,
  open_kinds, all_kinds, reset, new_ledger,
}

-- Ten slots, each a u64.
pub record IsLedger (l : ResourceLedger) : Type 0 where
  pub slots : length l.counts ≡ 10
  pub bound : (k : ResourceKind) → count l k ≤ u64_max

idx-lt : (k : ResourceKind) → idx k < 10
idx-lt k = ground arith

idx_injective : (j k : ResourceKind) → idx j ≡ idx k → j ≡ k
idx_injective j k h = ground arith

slot : {l : ResourceLedger} (k : ResourceKind) → IsLedger l → idx k < length l.counts
slot k v = omega (arith, idx-lt k)

pub count-acquire_self :
    {l : ResourceLedger} (k : ResourceKind)
    → IsLedger l
    → count (acquire l k) k ≡ sat_add (count l k) 1
unfolding acquire
count-acquire_self {l} k v = get_or-set_self l.counts (idx k) (sat_add (count l k) 1) 0 (slot k v)

pub count-acquire_ne :
    (l : ResourceLedger) {k j : ResourceKind} → k ≢ j → count (acquire l k) j ≡ count l j
unfolding acquire
count-acquire_ne l {k} {j} h =
    get_or-set_ne l.counts (idx k) (idx j) (sat_add (count l k) 1) 0 (λ e. h (idx_injective k j e))

release_held :
    (l : ResourceLedger) (k : ResourceKind) (n : ℕ)
    → count l k ≡ n + 1
    → release l k ≡ (record { counts = set l.counts (idx k) n }, true)
unfolding release
release_held l k n h =
    let held : (count l k == 0) ≡ false = ground arith in
    let e : count l k - 1 ≡ n = omega arith in
    rw held (ap (λ x. (record { counts = set l.counts (idx k) x }, true)) e)

-- Releasing a resource that was just acquired gives back the ledger, and is balanced, where the
-- ledger has its ten slots and the count was below the u64 limit.
pub release-acquire :
    {l : ResourceLedger} (k : ResourceKind)
    → IsLedger l
    → count l k < u64_max
    → release (acquire l k) k ≡ (l, true)
release-acquire {l} k v h =
    release_held (acquire l k) k (count l k) (omega (arith, count-acquire_self k v))
    ∙ ap (λ (r : ResourceLedger). (r, true)) restored
  where
    restored : record { counts = set (acquire l k).counts (idx k) (count l k) } ≡ l
    restored =
        unfold acquire in
        ap (λ (cs : List ℕ). record { counts = cs })
          (set-set l.counts (idx k) _ (count l k) ∙ set-get_or l.counts (idx k) 0)

-- A release is refused exactly when nothing of the kind is held, and then changes nothing.
pub release_refused :
    (l : ResourceLedger) (k : ResourceKind) → ((release l k).1 ≡ false) ↔ (count l k ≡ 0)
unfolding release
release_refused l k = (λ h. ground arith, λ h. ground arith)

all_zero→get_or : (cs : List ℕ) (i : ℕ) → all_zero cs ≡ true → get_or cs i 0 ≡ 0
unfolding all_zero
all_zero→get_or [] i h = refl
all_zero→get_or (c ∷ cs) zero h = ground arith
all_zero→get_or (c ∷ cs) (suc i) h = all_zero→get_or cs i (ground arith)

get_or→all_zero : (cs : List ℕ) → ((i : ℕ) → i < length cs → get_or cs i 0 ≡ 0) → all_zero cs ≡ true
unfolding all_zero
get_or→all_zero [] h = refl
get_or→all_zero (c ∷ cs) h =
    ground (arith, h 0 (omega arith), get_or→all_zero cs (λ i p. h (suc i) (omega arith)))

-- The kind of a slot.
kind_of : (i : ℕ) → i < 10 → (k : ResourceKind) × (idx k ≡ i)
kind_of zero h = (network, refl)
kind_of (suc zero) h = (timer, refl)
kind_of (suc (suc zero)) h = (worker, refl)
kind_of (suc (suc (suc zero))) h = (wasm_handle, refl)
kind_of (suc (suc (suc (suc zero)))) h = (decoder, refl)
kind_of (suc (suc (suc (suc (suc zero))))) h = (frame, refl)
kind_of (suc (suc (suc (suc (suc (suc zero)))))) h = (audio, refl)
kind_of (suc (suc (suc (suc (suc (suc (suc zero))))))) h = (gpu, refl)
kind_of (suc (suc (suc (suc (suc (suc (suc (suc zero)))))))) h = (url, refl)
kind_of (suc (suc (suc (suc (suc (suc (suc (suc (suc zero))))))))) h = (listener, refl)
kind_of (suc (suc (suc (suc (suc (suc (suc (suc (suc (suc i)))))))))) h = absurd (omega arith)

-- The ledger is zero exactly when no resource of any kind is held.
pub is_zero_iff :
    {l : ResourceLedger} → IsLedger l → (is_zero l ≡ true) ↔ ((k : ResourceKind) → count l k ≡ 0)
unfolding is_zero
is_zero_iff {l} v = (
  (λ h k. all_zero→get_or l.counts (idx k) h),
  λ h.
      get_or→all_zero l.counts
        λ i p. let (k, e) = kind_of i (omega arith) in subst (λ j. get_or l.counts j 0 ≡ 0) e (h k),
)

sum_from-le : (acc : ℕ) (cs : List ℕ) → acc ≤ u64_max → acc ≤ sum_from acc cs
unfolding sum_from
sum_from-le acc [] h = omega arith
sum_from-le acc (c ∷ cs) h = omega (arith, sum_from-le (sat_add acc c) cs (omega arith))

sum_from-zero : (cs : List ℕ) → sum_from 0 cs ≡ 0 → all_zero cs ≡ true
unfolding sum_from all_zero
sum_from-zero [] h = refl
sum_from-zero (zero ∷ cs) h = sum_from-zero cs h
sum_from-zero (suc c ∷ cs) h =
    absurd (omega (arith, sum_from-le (sat_add 0 (suc c)) cs (omega arith)))

all_zero→sum_from : (cs : List ℕ) → all_zero cs ≡ true → sum_from 0 cs ≡ 0
unfolding sum_from all_zero
all_zero→sum_from [] h = refl
all_zero→sum_from (zero ∷ cs) h = all_zero→sum_from cs h
all_zero→sum_from (suc c ∷ cs) h = ground arith

open_from-nil : (ks : List ResourceKind) (cs : List ℕ) → all_zero cs ≡ true → open_from ks cs ≡ []
unfolding open_from all_zero
open_from-nil [] cs h = refl
open_from-nil (k ∷ ks) [] h = refl
open_from-nil (k ∷ ks) (zero ∷ cs) h = open_from-nil ks cs h
open_from-nil (k ∷ ks) (suc c ∷ cs) h = ground arith

nil_open_from :
    (ks : List ResourceKind) (cs : List ℕ)
    → length ks ≡ length cs
    → open_from ks cs ≡ []
    → all_zero cs ≡ true
unfolding open_from all_zero
nil_open_from ks [] h e = refl
nil_open_from [] (c ∷ cs) h e = absurd (omega (arith, h))
nil_open_from (k ∷ ks) (zero ∷ cs) h e = nil_open_from ks cs (omega (arith, h)) e
nil_open_from (k ∷ ks) (suc c ∷ cs) h e = ground arith

-- The three views of an empty ledger of ten slots agree: it is zero exactly when its total is 0,
-- and exactly when it has no open kinds.
pub total_zero_iff :
    {l : ResourceLedger}
    → IsLedger l
    → ((total l ≡ 0) ↔ (is_zero l ≡ true)) × ((open_kinds l ≡ []) ↔ (is_zero l ≡ true))
unfolding total is_zero open_kinds
total_zero_iff {l} v = (
  (sum_from-zero l.counts, all_zero→sum_from l.counts),
  (nil_open_from all_kinds l.counts (omega (arith, v)), open_from-nil all_kinds l.counts),
)

get_or-set_bound :
    (cs : List ℕ) (i j n m : ℕ) → n ≤ m → get_or cs j 0 ≤ m → get_or (set cs i n) j 0 ≤ m
get_or-set_bound [] i j n m h k = k
get_or-set_bound (c ∷ cs) zero zero n m h k = h
get_or-set_bound (c ∷ cs) zero (suc j) n m h k = k
get_or-set_bound (c ∷ cs) (suc i) zero n m h k = k
get_or-set_bound (c ∷ cs) (suc i) (suc j) n m h k = get_or-set_bound cs i j n m h k

set-IsLedger :
    {l : ResourceLedger} (k : ResourceKind) (n : ℕ)
    → IsLedger l
    → n ≤ u64_max
    → IsLedger (record { counts = set l.counts (idx k) n })
set-IsLedger {l} k n v h = record {
  slots = length-set l.counts (idx k) n ∙ v.slots;
  bound = λ j. get_or-set_bound l.counts (idx k) (idx j) n u64_max h (v.bound j);
}

release-IsLedger : {l : ResourceLedger} (k : ResourceKind) → IsLedger l → IsLedger (release l k).0
unfolding release
release-IsLedger {l} k v = elim (Bool-cases (count l k == 0)) [
  | inl empty ↦ rw empty v
  | inr held ↦ rw held (set-IsLedger k (count l k - 1) v (omega (arith, v.bound k)))
]

new_ledger-IsLedger : IsLedger new_ledger
new_ledger-IsLedger = record { slots = refl; bound = λ k. ground arith }

-- Every operation that changes a ledger of ten slots, each within a u64, leaves it such: an
-- acquire, a release, balanced or not, and a reset.
pub operations-IsLedger :
    {l : ResourceLedger} (k : ResourceKind)
    → IsLedger l
    → IsLedger (acquire l k) × IsLedger (release l k).0 × IsLedger (reset l).0
unfolding acquire reset
operations-IsLedger {l} k v = (
  set-IsLedger k (sat_add (count l k) 1) v (omega arith),
  release-IsLedger k v,
  new_ledger-IsLedger,
)
