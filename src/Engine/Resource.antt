-- ===== src/Engine/Resource.antt =====
-- crates/cheetah-media-engine/src/resource.rs: the ledger of owned resources and its limits.
pub mod Counts
pub mod Limits
mod Tests
use cheetah_media_engine.Prelude.{
  ℕ, zero, suc, ◌+◌, ◌-◌, String, Bool, true, false, ◌&&◌, List, [], ◌∷◌, get_or, set, sat_add,
  u64_max, ltb, ◌==◌, if◌then◌else◌,
}
use cheetah_media_engine.Types.Error.{MediaError, resource_limit, Result, ok, err}

pub data ResourceKind : Type 0 where
  network timer worker wasm_handle decoder frame audio gpu url listener : ResourceKind

abbrev pub all_kinds : List ResourceKind
all_kinds =
    network ∷ timer ∷ worker ∷ wasm_handle ∷ decoder ∷ frame ∷ audio ∷ gpu ∷ url ∷ listener ∷ []

-- The discriminant.
abbrev pub idx : ResourceKind → ℕ
idx network = 0
idx timer = 1
idx worker = 2
idx wasm_handle = 3
idx decoder = 4
idx frame = 5
idx audio = 6
idx gpu = 7
idx url = 8
idx listener = 9

abbrev pub ten : ℕ → List ℕ
ten n = n ∷ n ∷ n ∷ n ∷ n ∷ n ∷ n ∷ n ∷ n ∷ n ∷ []

-- The array has ten slots, one for each kind (`IsLedger` of Resource/Counts).
pub record ResourceLedger : Type 0 where
  pub counts : List ℕ

abbrev pub new_ledger : ResourceLedger
new_ledger = record { counts = ten 0 }

abbrev pub count : ResourceLedger → ResourceKind → ℕ
count l k = get_or l.counts (idx k) 0

unfoldable pub acquire : ResourceLedger → ResourceKind → ResourceLedger
acquire l k = record { counts = set l.counts (idx k) (sat_add (count l k) 1) }

-- The ledger and whether the release was balanced.
unfoldable pub release : ResourceLedger → ResourceKind → ResourceLedger × Bool
release l k =
    if count l k == 0
    then (l, false)
    else (record { counts = set l.counts (idx k) (count l k - 1) }, true)

sum_from : ℕ → List ℕ → ℕ
sum_from acc [] = acc
sum_from acc (c ∷ cs) = sum_from (sat_add acc c) cs

unfoldable pub total : ResourceLedger → ℕ
unfolding sum_from
total l = sum_from 0 l.counts

all_zero : List ℕ → Bool
all_zero [] = true
all_zero (c ∷ cs) = c == 0 && all_zero cs

unfoldable pub is_zero : ResourceLedger → Bool
unfolding all_zero
is_zero l = all_zero l.counts

-- The ledger after the reset, and the counts before it.
unfoldable pub reset : ResourceLedger → ResourceLedger × List ℕ
reset l = (new_ledger, l.counts)

-- The kinds of the open slots, given the kinds of the slots.
open_from : List ResourceKind → List ℕ → List ResourceKind
open_from (k ∷ ks) (c ∷ cs) = if ltb 0 c then k ∷ open_from ks cs else open_from ks cs
open_from _ _ = []

unfoldable pub open_kinds : ResourceLedger → List ResourceKind
unfolding open_from
open_kinds l = open_from all_kinds l.counts

pub record ResourceLimits : Type 0 where
  pub max_per_kind : List ℕ
  pub max_total : ℕ

abbrev pub new_limits : ResourceLimits
new_limits = record { max_per_kind = ten u64_max; max_total = u64_max }

unfoldable pub set_max : ResourceLimits → ResourceKind → ℕ → ResourceLimits
set_max m k n = record m { max_per_kind = set m.max_per_kind (idx k) n }

unfoldable pub set_max_total : ResourceLimits → ℕ → ResourceLimits
set_max_total m n = record m { max_total = n }

abbrev pub max_for : ResourceLimits → ResourceKind → ℕ
max_for m k = get_or m.max_per_kind (idx k) 0

unfoldable pub resource_kind_name : ResourceKind → String
resource_kind_name network = "network"
resource_kind_name timer = "timer"
resource_kind_name worker = "worker"
resource_kind_name wasm_handle = "wasm_handle"
resource_kind_name decoder = "decoder"
resource_kind_name frame = "frame"
resource_kind_name audio = "audio"
resource_kind_name gpu = "gpu"
resource_kind_name url = "url"
resource_kind_name listener = "listener"

-- The loop over the kinds; `i` is the index that `enumerate` gives.
check_kinds : ResourceLimits → ResourceLedger → ℕ → List ResourceKind → Result (Unit {0})
check_kinds m l i [] = ok tt
check_kinds m l i (k ∷ ks) =
    let rest = check_kinds m l (suc i) ks in
    if ltb (get_or m.max_per_kind i 0) (count l k)
    then err (resource_limit (resource_kind_name k) (count l k) (get_or m.max_per_kind i 0))
    else rest

unfoldable pub check : ResourceLimits → ResourceLedger → Result (Unit {0})
unfolding check_kinds
check m l =
    if ltb m.max_total (total l)
    then err (resource_limit "resource_total" (total l) m.max_total)
    else check_kinds m l 0 all_kinds

-- A guard holds one resource of its kind; `keep` makes its drop do nothing.
pub record ResourceGuard : Type 0 where
  pub kind : ResourceKind
  pub released : Bool

guard_acquire : ResourceLedger → ResourceKind → ResourceLedger × ResourceGuard
guard_acquire l k = (acquire l k, record { kind = k; released = false })

guard_keep : ResourceGuard → ResourceGuard
guard_keep g = record g { released = true }

guard_drop : ResourceLedger → ResourceGuard → ResourceLedger
guard_drop l g = if g.released then l else (release l g.kind).0
