-- ===== src/Types/Pool/Inv.antt =====
-- The pool's counters against the buffers that are out, and its limits.
use cheetah_media_engine.Prelude.{
  ℕ, ◌+◌, ◌-◌, ◌≤◌, ◌<◌, ◌≡◌, refl, arith, List, [], ◌∷◌, ◌++◌, length, length-append, length-set,
  set, Option, none, some, Bool-cases, inl, inr, ◌⊎◌, ltb, leb, if◌then◌else◌, u64_max, ltb→lt,
  leb→le,
}
use cheetah_media_engine.Types.Error.{Result, ok, err}
use cheetah_media_engine.Types.Pool.{
  PoolInner, PoolToken, wrapping_add, wrapping_sub, should_retain, pool_release, position,
  drop_last, last_or, swap_remove, take_chunk, reserve, unreserve, check_bytes, pool_acquire,
}

abbrev pub total_size : List PoolToken → ℕ
total_size [] = 0
total_size (t ∷ ts) = t.size + total_size ts

abbrev pub FreeFits : Option ℕ → ℕ → Type 0
FreeFits none free = Unit {0}
FreeFits (some most) free = free ≤ most

-- The pool while the buffers of the list are out.
pub record IsPool (p : PoolInner) (live : List PoolToken) : Type 0 where
  pub count : p.in_use_count ≡ length live
  pub bytes : p.in_use_bytes ≡ total_size live
  pub count_fits : length live ≤ p.config.max_count
  pub bytes_fit : total_size live ≤ p.config.max_total_bytes
  pub free_fits : FreeFits p.config.max_free_count (length p.free)
  pub released_word : p.total_released ≤ u64_max
  pub acquired : p.total_acquired ≡ wrapping_add p.total_released (length live)
  pub words : (p.config.max_count ≤ u64_max) × (p.config.max_total_bytes ≤ u64_max)

wrapped_back : (a b : ℕ) → a ≤ u64_max → b ≤ u64_max → wrapping_sub (wrapping_add a b) b ≡ a
wrapped_back a b h k = omega arith

no_wrap : (a b : ℕ) → a + b ≤ u64_max → wrapping_add a b ≡ a + b
no_wrap a b h = omega arith

no_borrow : (a b : ℕ) → a + b ≤ u64_max → wrapping_sub (a + b) b ≡ a
no_borrow a b h = omega arith

length-drop_last : (cs : List ℕ) → length (drop_last cs) ≡ length cs - 1
unfolding drop_last
length-drop_last [] = refl
length-drop_last (c ∷ []) = refl
length-drop_last (c ∷ d ∷ cs) = omega (arith, length-drop_last (d ∷ cs))

FreeFits-le : (o : Option ℕ) (m n : ℕ) → m ≤ n → FreeFits o n → FreeFits o m
FreeFits-le none m n h f = tt
FreeFits-le (some most) m n h f = omega (arith, f, h)

FreeFits-retain :
    (o : Option ℕ) (free : List ℕ) (c : ℕ)
    → FreeFits o (length free)
    → FreeFits o (length (if should_retain o (length free) then free ++ c ∷ [] else free))
FreeFits-retain none free c f = tt
FreeFits-retain (some most) free c f = elim (Bool-cases (ltb (length free) most)) [
  | inl room ↦ rw room (omega (arith, ltb→lt (length free) most room, length-append free (c ∷ [])))
  | inr full ↦ rw full f
]

length-swap_remove : (cs : List ℕ) (i : ℕ) → length (swap_remove cs i) ≤ length cs
length-swap_remove cs i =
    omega (arith, length-drop_last (set cs i (last_or 0 cs)), length-set cs i (last_or 0 cs))

total_size-middle :
    (before after : List PoolToken) (t : PoolToken)
    → total_size (before ++ t ∷ after) ≡ total_size (before ++ after) + t.size
total_size-middle [] after t = omega arith
total_size-middle (x ∷ before) after t = omega (arith, total_size-middle before after t)

length-middle :
    (before after : List PoolToken) (t : PoolToken)
    → length (before ++ t ∷ after) ≡ length (before ++ after) + 1
length-middle before after t =
    omega (arith, length-append before (t ∷ after), length-append before after)

-- The drop of any buffer that is out keeps the counters those of the buffers that are out, and
-- every limit, whatever the order of the drops, as long as the count of drops is below the u64
-- limit.
pub pool_release-IsPool :
    (p : PoolInner) (before after : List PoolToken) (t : PoolToken)
    → IsPool p (before ++ t ∷ after)
    → p.total_released < u64_max
    → IsPool (pool_release p t) (before ++ after)
unfolding pool_release
pool_release-IsPool p before after t v h =
    let n = length-middle before after t in
    let m = total_size-middle before after t in
    record {
      count = omega (arith, n, v.count, v.count_fits, v.words);
      bytes = omega (arith, m, v.bytes, v.bytes_fit, v.words);
      count_fits = omega (arith, n, v.count_fits);
      bytes_fit = omega (arith, m, v.bytes_fit);
      free_fits = FreeFits-retain p.config.max_free_count p.free t.capacity v.free_fits;
      released_word = omega (arith, h);
      acquired = omega (arith, n, v.acquired, h);
      words = v.words;
    }

take_chunk-IsPool :
    (p : PoolInner) (live : List PoolToken) (size : ℕ) (i : Option ℕ)
    → IsPool p live
    → length live < p.config.max_count
    → total_size live + size ≤ p.config.max_total_bytes
    → let r = take_chunk (reserve p size) size i in IsPool r.0 (r.1 ∷ live) × (r.1.size ≡ size)
take_chunk-IsPool p live size none v h k = (
  record {
    count = omega (arith, v.count, h, v.words);
    bytes = omega (arith, v.bytes, k, v.words);
    count_fits = omega (arith, h);
    bytes_fit = omega (arith, k);
    free_fits = v.free_fits;
    released_word = v.released_word;
    acquired = omega (arith, v.acquired);
    words = v.words;
  },
  refl,
)
take_chunk-IsPool p live size (some i) v h k = (
  record {
    count = omega (arith, v.count, h, v.words);
    bytes = omega (arith, v.bytes, k, v.words);
    count_fits = omega (arith, h);
    bytes_fit = omega (arith, k);
    free_fits =
        FreeFits-le p.config.max_free_count (length (swap_remove p.free i)) (length p.free)
          (length-swap_remove p.free i) v.free_fits;
    released_word = v.released_word;
    acquired = omega (arith, v.acquired);
    words = v.words;
  },
  refl,
)

-- What an acquire does.
abbrev pub Acquires : PoolInner → List PoolToken → ℕ → PoolInner × Result PoolToken → Type 0
Acquires p live size (q, ok t) =
    IsPool q (t ∷ live) × (t.size ≡ size) × (size ≤ p.config.max_object_size)
Acquires p live size (q, err e) =
    (q ≡ p)
    × ((p.config.max_object_size < size)
        ⊎ ((p.config.max_count ≤ length live)
            ⊎ (p.config.max_total_bytes < total_size live + size)))

unreserve-reserve :
    (p : PoolInner) (live : List PoolToken) (size : ℕ)
    → IsPool p live
    → size ≤ u64_max
    → unreserve (reserve p size) size ≡ p
unreserve-reserve p live size v h =
    let a =
      wrapped_back p.in_use_count 1 (omega (arith, v.count, v.count_fits, v.words)) (omega arith) in
    let b = wrapped_back p.in_use_bytes size (omega (arith, v.bytes, v.bytes_fit, v.words)) h in
    rw (a, b) refl

check_bytes-Acquires :
    (p : PoolInner) (live : List PoolToken) (size : ℕ)
    → IsPool p live
    → size ≤ u64_max
    → size ≤ p.config.max_object_size
    → length live < p.config.max_count
    → Acquires p live size (check_bytes (reserve p size) p.in_use_bytes size)
unfolding check_bytes
check_bytes-Acquires p live size v w o h =
    let back = unreserve-reserve p live size v w in
    elim (Bool-cases (ltb u64_max (p.in_use_bytes + size))) [
      | inl over ↦ rw over (
        back,
        inr (inr (omega (arith, ltb→lt u64_max (p.in_use_bytes + size) over, v.bytes, v.words))),
      )
      | inr word ↦ elim (Bool-cases (ltb p.config.max_total_bytes (p.in_use_bytes + size))) [
        | inl over ↦
            rw (word, over)
              (
                back,
                inr (
                    inr (
                      omega (
                        arith,
                        ltb→lt p.config.max_total_bytes (p.in_use_bytes + size) over,
                        v.bytes,
                      ))),
              )
        | inr room ↦
            let k : total_size live + size ≤ p.config.max_total_bytes =
              ground (arith, room, v.bytes) in
            let (q, e) = take_chunk-IsPool p live size (position size p.free) v h k in
            rw (word, room) (q, e, o)
      ]
    ]

-- In a pool whose counters are those of the buffers that are out and whose limits are kept, an
-- acquire of a u64 size either serves a buffer of this size, and then the counters count it too and
-- every limit is kept, or it leaves the pool exactly as it was. It is refused only where the size
-- is above that of an object, as many buffers are out as there may be, or the bytes would exceed
-- their limit.
pub pool_acquire-Acquires :
    (p : PoolInner) (live : List PoolToken) (size : ℕ)
    → IsPool p live
    → size ≤ u64_max
    → Acquires p live size (pool_acquire p size)
unfolding pool_acquire
pool_acquire-Acquires p live size v w = elim (Bool-cases (ltb p.config.max_object_size size)) [
  | inl large ↦ rw large (refl, inl (ltb→lt p.config.max_object_size size large))
  | inr fine ↦ elim (Bool-cases (leb p.config.max_count p.in_use_count)) [
    | inl full ↦
        let back =
          wrapped_back p.in_use_count 1 (omega (arith, v.count, v.count_fits, v.words))
            (omega arith) in
        rw (fine, full, back)
          (refl, inr (inl (omega (arith, leb→le p.config.max_count p.in_use_count full, v.count))))
    | inr room ↦
        rw (fine, room)
          (check_bytes-Acquires p live size v w (ground (arith, fine))
            (ground (arith, room, v.count)))
  ]
]
