-- ===== src/Types/Pool/Tests.antt =====
-- The theorems on the pool at a concrete pool.
use cheetah_media_engine.Prelude.{ℕ, refl, arith, [], ◌∷◌, some}
use cheetah_media_engine.Types.Pool.{
  BufferPoolConfig, PoolInner, PoolToken, pool_release, pool_acquire,
}
use cheetah_media_engine.Types.Pool.Inv.{
  IsPool, pool_release-IsPool, Acquires, pool_acquire-Acquires,
}

abbrev config : BufferPoolConfig
config = record {
  max_total_bytes = 1000;
  max_count = 3;
  max_object_size = 600;
  max_wait_ms = 100;
  max_free_count = some 2;
}

abbrev buffer_of : ℕ → PoolToken
buffer_of n = record { size = n; capacity = n }

-- Two buffers are out, and one chunk of 400 is free.
abbrev pool : PoolInner
pool = record {
  config = config;
  in_use_bytes = 500;
  in_use_count = 2;
  total_acquired = 3;
  total_released = 1;
  hits = 0;
  misses = 3;
  free = 400 ∷ [];
}

pool-IsPool : IsPool pool (buffer_of 300 ∷ buffer_of 200 ∷ [])
pool-IsPool = record {
  count = refl;
  bytes = refl;
  count_fits = omega arith;
  bytes_fit = omega arith;
  free_fits = omega arith;
  released_word = omega arith;
  acquired = refl;
  words = omega arith;
}

pool_acquire-Acquires_example :
    Acquires pool (buffer_of 300 ∷ buffer_of 200 ∷ []) 350 (pool_acquire pool 350)
pool_acquire-Acquires_example =
    pool_acquire-Acquires pool (buffer_of 300 ∷ buffer_of 200 ∷ []) 350 pool-IsPool (omega arith)

pool_release-IsPool_example : IsPool (pool_release pool (buffer_of 200)) (buffer_of 300 ∷ [])
pool_release-IsPool_example =
    pool_release-IsPool pool (buffer_of 300 ∷ []) [] (buffer_of 200) pool-IsPool (omega arith)
