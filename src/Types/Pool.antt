-- ===== src/Types/Pool.antt =====
-- crates/cheetah-media-types/src/buffer/pool.rs: the bounded pool of buffers. An atomic counter is a
-- number that wraps at 64 bits; an operation runs without another in between. A free chunk is its
-- capacity, and a chunk that is made new has the capacity it is made for.
pub mod Inv
mod Tests
use cheetah_media_engine.Prelude.{
  ℕ, zero, suc, ◌+◌, ◌-◌, ◌%◌, ◌^◌, Bool, true, false, List, [], ◌∷◌, ◌++◌, length, set, Option,
  none, some, map_option, sat_add, u64_max, ltb, leb, if◌then◌else◌,
}
use cheetah_media_engine.Types.Error.{MediaError, resource_limit, Result, ok, err}

pub record BufferPoolConfig : Type 0 where
  pub max_total_bytes : ℕ
  pub max_count : ℕ
  pub max_object_size : ℕ
  pub max_wait_ms : ℕ
  pub max_free_count : Option ℕ

default_pool_config : BufferPoolConfig
default_pool_config = record {
  max_total_bytes = 67108864;
  max_count = 256;
  max_object_size = 16777216;
  max_wait_ms = 100;
  max_free_count = some 64;
}

pub record PoolStats : Type 0 where
  pub in_use_bytes : ℕ
  pub in_use_count : ℕ
  pub free_count : ℕ
  pub total_acquired : ℕ
  pub total_released : ℕ
  pub hits : ℕ
  pub misses : ℕ

pub record PoolInner : Type 0 where
  pub config : BufferPoolConfig
  pub in_use_bytes : ℕ
  pub in_use_count : ℕ
  pub total_acquired : ℕ
  pub total_released : ℕ
  pub hits : ℕ
  pub misses : ℕ
  pub free : List ℕ

abbrev pub new_pool : BufferPoolConfig → PoolInner
new_pool config = record {
  config = config;
  in_use_bytes = 0;
  in_use_count = 0;
  total_acquired = 0;
  total_released = 0;
  hits = 0;
  misses = 0;
  free = [];
}

load_stats : PoolInner → PoolStats
load_stats p = record {
  in_use_bytes = p.in_use_bytes;
  in_use_count = p.in_use_count;
  free_count = length p.free;
  total_acquired = p.total_acquired;
  total_released = p.total_released;
  hits = p.hits;
  misses = p.misses;
}

-- `fetch_add` and `fetch_sub`, as what they leave.
abbrev pub wrapping_add : ℕ → ℕ → ℕ
wrapping_add a b = (a + b) % 2 ^ 64

abbrev pub wrapping_sub : ℕ → ℕ → ℕ
wrapping_sub a b = (a + (2 ^ 64 - b)) % 2 ^ 64

-- A buffer that is out: its size and the capacity of its chunk.
pub record PoolToken : Type 0 where
  pub size : ℕ
  pub capacity : ℕ

-- `max_free_count.is_none_or(|max| free.len() < max)`.
abbrev pub should_retain : Option ℕ → ℕ → Bool
should_retain none free = true
should_retain (some most) free = ltb free most

-- The drop of a token.
pub pool_release : PoolInner → PoolToken → PoolInner
pool_release p t = record p {
  total_released = wrapping_add p.total_released 1;
  in_use_count = wrapping_sub p.in_use_count 1;
  in_use_bytes = wrapping_sub p.in_use_bytes t.size;
  free =
      if should_retain p.config.max_free_count (length p.free)
      then p.free ++ t.capacity ∷ []
      else p.free;
}

-- The first free chunk with room for `size`.
position : ℕ → List ℕ → Option ℕ
position size [] = none
position size (c ∷ cs) = if leb size c then some 0 else map_option suc (position size cs)

abbrev pub last_or : ℕ → List ℕ → ℕ
last_or d [] = d
last_or d (c ∷ cs) = last_or c cs

pub drop_last : List ℕ → List ℕ
drop_last [] = []
drop_last (c ∷ []) = []
drop_last (c ∷ d ∷ cs) = c ∷ drop_last (d ∷ cs)

-- `swap_remove`: the last chunk takes the place of the one removed.
abbrev pub swap_remove : List ℕ → ℕ → List ℕ
swap_remove cs i = drop_last (set cs i (last_or 0 cs))

abbrev pub chunk_at : List ℕ → ℕ → ℕ
chunk_at [] i = 0
chunk_at (c ∷ cs) zero = c
chunk_at (c ∷ cs) (suc i) = chunk_at cs i

abbrev pub reserve : PoolInner → ℕ → PoolInner
reserve p size = record p {
  in_use_count = wrapping_add p.in_use_count 1;
  in_use_bytes = wrapping_add p.in_use_bytes size;
}

-- Both reservations given back.
abbrev pub unreserve : PoolInner → ℕ → PoolInner
unreserve p size = record p {
  in_use_count = wrapping_sub p.in_use_count 1;
  in_use_bytes = wrapping_sub p.in_use_bytes size;
}

-- A chunk for a buffer that is reserved, reused or new.
abbrev pub take_chunk : PoolInner → ℕ → Option ℕ → PoolInner × PoolToken
take_chunk p size none = (
  record p { misses = wrapping_add p.misses 1; total_acquired = wrapping_add p.total_acquired 1 },
  record { size = size; capacity = size },
)
take_chunk p size (some i) = (
  record p {
    hits = wrapping_add p.hits 1;
    total_acquired = wrapping_add p.total_acquired 1;
    free = swap_remove p.free i;
  },
  record { size = size; capacity = chunk_at p.free i },
)

abbrev pub served : PoolInner × PoolToken → PoolInner × Result PoolToken
served (p, t) = (p, ok t)

-- After the count: the check of the bytes, then the chunk. `p` has both reserved, `prev` bytes before.
check_bytes : PoolInner → ℕ → ℕ → PoolInner × Result PoolToken
unfolding position
check_bytes p prev size =
    if ltb u64_max (prev + size)
    then (
      unreserve p size,
      err (resource_limit "buffer_pool_total_bytes" u64_max p.config.max_total_bytes),
    )
    else if ltb p.config.max_total_bytes (prev + size)
    then (
      unreserve p size,
      err (resource_limit "buffer_pool_total_bytes" (prev + size) p.config.max_total_bytes),
    )
    else served (take_chunk p size (position size p.free))

-- The pool that an acquire leaves, and the buffer or the error.
pub pool_acquire : PoolInner → ℕ → PoolInner × Result PoolToken
unfolding check_bytes
pool_acquire p size =
    if ltb p.config.max_object_size size
    then (p, err (resource_limit "buffer_pool_object_size" size p.config.max_object_size))
    else if leb p.config.max_count p.in_use_count
    then (
      record p { in_use_count = wrapping_sub (wrapping_add p.in_use_count 1) 1 },
      err (resource_limit "buffer_pool_count" (sat_add p.in_use_count 1) p.config.max_count),
    )
    else check_bytes (reserve p size) p.in_use_bytes size
