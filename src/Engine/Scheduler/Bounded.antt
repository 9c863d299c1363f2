-- ===== src/Engine/Scheduler/Bounded.antt =====
-- crates/cheetah-media-engine/src/scheduler.rs: priorities, and one bounded priority queue.
use cheetah_media_engine.Prelude.{
  ℕ, zero, suc, ◌-◌, ◌/◌, String, Bool, true, false, not, ◌&&◌, List, [], ◌∷◌, ◌++◌, length, Option,
  none, some, sat_add, sat_mul, ltb, leb, ◌==◌, if◌then◌else◌,
}

pub data Priority : Type 0 where
  control audio_clock keyframe ordinary : Priority

-- The discriminant: lower is more urgent.
abbrev pub rank : Priority → ℕ
rank control = 0
rank audio_clock = 1
rank keyframe = 2
rank ordinary = 3

-- `Reverse(p)` as a key: greater priorities come first.
abbrev pub reverse_rank : Priority → ℕ
reverse_rank p = 3 - rank p

pub data SchedulerEvent : Type 0 where
  dropped_items : String → ℕ → SchedulerEvent
  high_watermark : String → ℕ → SchedulerEvent
  low_watermark : String → ℕ → SchedulerEvent

pub record QueueConfig : Type 0 where
  pub capacity : ℕ
  pub high : ℕ
  pub low : ℕ

unfoldable pub with_watermarks : ℕ → QueueConfig
with_watermarks capacity =
    let high = sat_mul capacity 3 / 4 in
    record {
      capacity = capacity;
      high = if ltb 0 capacity && high == 0 then 1 else high;
      low = capacity / 4;
    }

unfoldable pub default_config : QueueConfig
unfolding with_watermarks
default_config = with_watermarks 64

pub record BoundedQueue {ℓ} (T : Type ℓ) : Type ℓ where
  pub name : String
  pub config : QueueConfig
  pub items : List (Priority × T)
  pub dropped : ℕ
  pub over_high : Bool

-- The nearer of a first item's key and the least key after it.
abbrev pub nearer : ℕ → Option (ℕ × ℕ) → Option (ℕ × ℕ)
nearer k none = some (0, k)
nearer k (some (i, least)) = if leb k least then some (0, k) else some (suc i, least)

module _ {ℓ} {T : Type ℓ} where
  unfoldable pub new_queue : String → QueueConfig → BoundedQueue T
  new_queue name config = record {
    name = name;
    config = config;
    items = [];
    dropped = 0;
    over_high = false;
  }

  -- The index and the key of the first item with the least key, as `min_by_key` finds it.
  unfoldable pub first_least : (Priority → ℕ) → List (Priority × T) → Option (ℕ × ℕ)
  first_least key [] = none
  first_least key ((p, x) ∷ xs) = nearer (key p) (first_least key xs)

  -- `VecDeque::remove`: the item, if there is one at the index, and the rest.
  unfoldable pub remove_at : List (Priority × T) → ℕ → Option T × List (Priority × T)
  remove_at [] i = (none, [])
  remove_at ((p, x) ∷ xs) zero = (some x, xs)
  remove_at ((p, x) ∷ xs) (suc i) = let (t, rest) = remove_at xs i in (t, (p, x) ∷ rest)

  abbrev pub count_drop : BoundedQueue T → BoundedQueue T
  count_drop q = record q { dropped = sat_add q.dropped 1 }

  abbrev pub push_back : BoundedQueue T → Priority → T → BoundedQueue T
  push_back q p x = record q { items = q.items ++ (p, x) ∷ [] }

  -- A full queue: the victim's index and reversed rank.
  unfoldable pub push_full : BoundedQueue T → Priority → T → Option (ℕ × ℕ) → BoundedQueue T × ℕ
  push_full q p x none = (count_drop q, 1)
  push_full q p x (some (i, k)) =
      if ltb (rank p) (3 - k)
      then (push_back (record (count_drop q) { items = (remove_at q.items i).1 }) p x, 0)
      else (count_drop q, 1)

  unfoldable pub queue_push : BoundedQueue T → Priority → T → BoundedQueue T × ℕ
  queue_push q p x =
      if q.config.capacity == 0
      then (count_drop q, 1)
      else if leb q.config.capacity (length q.items)
      then push_full q p x (first_least reverse_rank q.items)
      else (push_back q p x, 0)

  abbrev pub pop_at : BoundedQueue T → Option (ℕ × ℕ) → BoundedQueue T × Option T
  pop_at q none = (q, none)
  pop_at q (some (i, k)) = let (t, rest) = remove_at q.items i in (record q { items = rest }, t)

  unfoldable pub queue_pop : BoundedQueue T → BoundedQueue T × Option T
  queue_pop q = pop_at q (first_least rank q.items)

  -- The two tests of `poll_watermarks`, one after the other.
  abbrev pub raise : BoundedQueue T → BoundedQueue T × List SchedulerEvent
  raise q =
      if not q.over_high && leb q.config.high (length q.items)
      then (record q { over_high = true }, high_watermark q.name (length q.items) ∷ [])
      else (q, [])

  abbrev pub release : BoundedQueue T → BoundedQueue T × List SchedulerEvent
  release q =
      if q.over_high && leb (length q.items) q.config.low
      then (record q { over_high = false }, low_watermark q.name (length q.items) ∷ [])
      else (q, [])

  unfoldable pub poll_queue : BoundedQueue T → BoundedQueue T × List SchedulerEvent
  poll_queue q =
      if q.config.capacity == 0
      then (q, [])
      else (let (a, xs) = raise q in let (b, ys) = release a in (b, xs ++ ys))
