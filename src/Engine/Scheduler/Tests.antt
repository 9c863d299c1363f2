-- ===== src/Engine/Scheduler/Tests.antt =====
-- The theorems on the queues and the scheduler at concrete queues.
use cheetah_media_engine.Prelude.{ℕ, refl, [], ◌∷◌, false}
use cheetah_media_engine.Engine.Scheduler.{Scheduler, input, packet, pop}
use cheetah_media_engine.Engine.Scheduler.Bounded.{keyframe, ordinary, BoundedQueue, queue_push}
use cheetah_media_engine.Engine.Scheduler.Queue.{Pushes, queue_push-Pushes}
use cheetah_media_engine.Engine.Scheduler.Pop.{TakesFirst, pop-TakesFirst}

-- A full queue of numbered items.
abbrev full_queue : BoundedQueue ℕ
full_queue = record {
  name = "packet";
  config = record { capacity = 3; high = 2; low = 0 };
  items = (keyframe, 10) ∷ (ordinary, 11) ∷ (ordinary, 12) ∷ [];
  dropped = 4;
  over_high = false;
}

queue_push-Pushes_example : Pushes full_queue keyframe 13 (queue_push full_queue keyframe 13)
queue_push-Pushes_example = queue_push-Pushes full_queue keyframe 13

abbrev two_queues : Scheduler ℕ
two_queues = record {
  queues = record full_queue { items = (ordinary, 1) ∷ [] } ∷ full_queue ∷ [];
  names = input ∷ packet ∷ [];
}

pop-TakesFirst_example : TakesFirst two_queues (pop two_queues)
pop-TakesFirst_example = pop-TakesFirst two_queues refl
