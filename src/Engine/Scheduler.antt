-- ===== src/Engine/Scheduler.antt =====
-- crates/cheetah-media-engine/src/scheduler.rs: the scheduler over named queues.
pub mod Bounded
pub mod Select
pub mod Queue
pub mod Watermarks
pub mod Pop
mod Tests
use cheetah_media_engine.Prelude.{
  ℕ, zero, suc, ◌+◌, ◌-◌, ◌*◌, ◌/◌, String, Bool, true, false, not, ◌&&◌, List, [], ◌∷◌, ◌++◌,
  length, get_elem?, set, map, Option, none, some, and_then, map_option, sat_add, sat_mul, ltb, leb,
  ◌==◌, if◌then◌else◌,
}
use cheetah_media_engine.Engine.Scheduler.Bounded.{
  BoundedQueue, Priority, QueueConfig, SchedulerEvent, count_drop, default_config, dropped_items,
  first_least, high_watermark, low_watermark, nearer, new_queue, poll_queue, pop_at, push_back,
  push_full, queue_pop, queue_push, raise, rank, release, remove_at, reverse_rank, with_watermarks,
  control, audio_clock, keyframe, ordinary, dropped_items, high_watermark, low_watermark,
}

pub data QueueName : Type 0 where
  input packet decode frame render audio record_queue : QueueName

queue_name : QueueName → String
queue_name input = "input"
queue_name packet = "packet"
queue_name decode = "decode"
queue_name frame = "frame"
queue_name render = "render"
queue_name audio = "audio"
queue_name record_queue = "record"

abbrev name_index : QueueName → ℕ
name_index input = 0
name_index packet = 1
name_index decode = 2
name_index frame = 3
name_index render = 4
name_index audio = 5
name_index record_queue = 6

abbrev pub all_names : List QueueName
all_names = input ∷ packet ∷ decode ∷ frame ∷ render ∷ audio ∷ record_queue ∷ []

pub position : QueueName → List QueueName → Option ℕ
position name [] = none
position name (n ∷ ns) =
    if name_index n == name_index name then some 0 else map_option suc (position name ns)

abbrev pub least_of : ℕ → Option ℕ → Option ℕ
least_of k none = some k
least_of k (some least) = if leb k least then some k else some least

-- The better of a first queue's rank and the best one after it; an empty queue has no rank.
abbrev pub earlier : Option ℕ → Option (ℕ × ℕ) → Option (ℕ × ℕ)
earlier none r = map_option (λ (i, k). (suc i, k)) r
earlier (some k) r = nearer k r

pub record Scheduler {ℓ} (T : Type ℓ) : Type ℓ where
  pub queues : List (BoundedQueue T)
  pub names : List QueueName

module _ {ℓ} {T : Type ℓ} where
  pub new_scheduler : Scheduler T
  unfolding new_queue queue_name default_config
  new_scheduler = record {
    queues = map (λ n. new_queue (queue_name n) default_config) all_names;
    names = all_names;
  }

  pub index_of : Scheduler T → QueueName → Option ℕ
  unfolding position
  index_of s name = position name s.names

  configure : Scheduler T → List (QueueName × QueueConfig) → Scheduler T
  configure s [] = s
  configure s ((name, config) ∷ rest) = elim (index_of s name) [
    | none ↦ configure s rest
    | some i ↦
        configure (record s { queues = set s.queues i (new_queue (queue_name name) config) }) rest
  ]

  pub with_configs : List (QueueName × QueueConfig) → Scheduler T
  unfolding configure
  with_configs configs = configure new_scheduler configs

  -- The scheduler after the push, the number dropped, and the events.
  push_at :
      Scheduler T
      → ℕ
      → QueueName
      → BoundedQueue T
      → Priority
      → T
      → Scheduler T × ℕ × List SchedulerEvent
  push_at s i name q p x =
      let pushed = (queue_push q p x).0 in
      let polled = poll_queue pushed in
      let lost = pushed.dropped - q.dropped in
      (
        record s { queues = set s.queues i polled.0 },
        lost,
        (if ltb 0 lost then polled.1 ++ dropped_items (queue_name name) lost ∷ [] else polled.1),
      )

  refuse_push : Scheduler T → QueueName → Scheduler T × ℕ × List SchedulerEvent
  refuse_push s name = (s, 1, dropped_items (queue_name name) 1 ∷ [])

  pub push : Scheduler T → QueueName → Priority → T → Scheduler T × ℕ × List SchedulerEvent
  unfolding push_at refuse_push
  push s name p x = elim (index_of s name) [
    | none ↦ refuse_push s name
    | some i ↦ elim (get_elem? s.queues i) [
      | none ↦ refuse_push s name
      | some q ↦ push_at s i name q p x
    ]
  ]

  pub least_rank : List (Priority × T) → Option ℕ
  least_rank [] = none
  least_rank ((p, x) ∷ xs) = least_of (rank p) (least_rank xs)

  -- The first queue with the least rank among the non-empty ones.
  pub first_queue : List (BoundedQueue T) → Option (ℕ × ℕ)
  unfolding least_rank
  first_queue [] = none
  first_queue (q ∷ qs) = earlier (least_rank q.items) (first_queue qs)

  -- The scheduler after the pop, and the item with its queue's name.
  abbrev pub take_item :
      Scheduler T → ℕ → Option (BoundedQueue T) → Scheduler T × Option (QueueName × T)
  take_item s i none = (s, none)
  take_item s i (some q) =
      let popped = queue_pop q in
      (
        record s { queues = set s.queues i popped.0 },
        and_then popped.1 (λ x. map_option (λ n. (n, x)) (get_elem? s.names i)),
      )

  pub pop_from : Scheduler T → Option (ℕ × ℕ) → Scheduler T × Option (QueueName × T)
  pop_from s none = (s, none)
  pop_from s (some (i, k)) = take_item s i (get_elem? s.queues i)

  pub pop : Scheduler T → Scheduler T × Option (QueueName × T)
  unfolding pop_from
  pop s = pop_from s (first_queue s.queues)

  poll_all : List (BoundedQueue T) → List (BoundedQueue T) × List SchedulerEvent
  poll_all [] = ([], [])
  poll_all (q ∷ qs) =
      let (q', xs) = poll_queue q in let (qs', ys) = poll_all qs in (q' ∷ qs', xs ++ ys)

  pub poll_watermarks : Scheduler T → Scheduler T × List SchedulerEvent
  unfolding poll_all
  poll_watermarks s = let (qs, evs) = poll_all s.queues in (record s { queues = qs }, evs)

  sum_of : (BoundedQueue T → ℕ) → ℕ → List (BoundedQueue T) → ℕ
  sum_of f acc [] = acc
  sum_of f acc (q ∷ qs) = sum_of f (sat_add acc (f q)) qs

  pub total_len : Scheduler T → ℕ
  unfolding sum_of
  total_len s = sum_of (λ q. length q.items) 0 s.queues

  pub total_dropped : Scheduler T → ℕ
  unfolding sum_of
  total_dropped s = sum_of (λ q. q.dropped) 0 s.queues
