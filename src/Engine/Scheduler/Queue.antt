-- ===== src/Engine/Scheduler/Queue.antt =====
-- A push into a bounded queue: what is evicted, the bound, and the count of what is lost.
use cheetah_media_engine.Prelude.{
  ℕ, suc, ◌+◌, ◌-◌, ◌≤◌, ◌<◌, ◌≡◌, ◌⊎◌, inl, inr, sym, ap, subst, arith, ltb→lt, List, [], ◌∷◌,
  ◌++◌, length, length-append, Option, none, some, Bool-cases, ltb, leb, ◌==◌, u64_max,
}
use cheetah_media_engine.Engine.Scheduler.Bounded.{
  Priority, rank, reverse_rank, first_least, BoundedQueue, push_full, queue_push, push_back,
  count_drop,
}
use cheetah_media_engine.Engine.Scheduler.Select.{
  AtLeast, Chooses, first_least-Chooses, remove_at-Chosen,
}

rank_le : (p : Priority) → rank p ≤ 3
rank_le p = ground arith

module _ {ℓ} {T : Type ℓ} where
  -- Every item is at least as urgent as `k`.
  abbrev pub AtMost : ℕ → List (Priority × T) → Type 0
  AtMost k [] = Unit {0}
  AtMost k ((p, x) ∷ xs) = (rank p ≤ k) × AtMost k xs

  -- The three outcomes of a push: the item is appended; it is appended in place of a victim; or it
  -- is refused.
  pub data Pushes (q : BoundedQueue T) (p : Priority) (x : T) : BoundedQueue T × ℕ → Type ℓ where
    accepted : length q.items < q.config.capacity → Pushes q p x (push_back q p x, 0)
    evicted :
        (before after : List (Priority × T)) (v : Priority) (y : T)
        → q.config.capacity ≤ length q.items
        → 0 < q.config.capacity
        → q.items ≡ before ++ (v, y) ∷ after
        → rank p < rank v
        → AtLeast reverse_rank (suc (reverse_rank v)) before
        → AtMost (rank v) q.items
        → Pushes q p x (push_back (record (count_drop q) { items = before ++ after }) p x, 0)
    refused_push :
        q.config.capacity ≤ length q.items
        → (q.config.capacity ≡ 0) ⊎ AtMost (rank p) q.items
        → Pushes q p x (count_drop q, 1)

  AtLeast-AtMost :
      (j k : ℕ) (xs : List (Priority × T)) → 3 ≤ j + k → AtLeast reverse_rank j xs → AtMost k xs
  AtLeast-AtMost j k [] h a = tt
  AtLeast-AtMost j k ((p, x) ∷ xs) h a =
      (omega (arith, a.0, rank_le p), AtLeast-AtMost j k xs h a.1)

  push_full-Pushes :
      (q : BoundedQueue T) (p : Priority) (x : T) (r : Option (ℕ × ℕ))
      → q.config.capacity ≤ length q.items
      → 0 < q.config.capacity
      → Chooses reverse_rank q.items r
      → Pushes q p x (push_full q p x r)
  unfolding push_full
  push_full-Pushes q p x none full h c = absurd (omega (arith, ap length c))
  push_full-Pushes q p x (some (i, k)) full h c = elim (Bool-cases (ltb (rank p) (3 - k))) [
    | inl less ↦
        rw (less, remove_at-Chosen reverse_rank q.items i k c)
          (evicted c.before c.after c.priority c.item full h c.items_eq
            (omega (arith, ltb→lt (rank p) (3 - k) less, c.key_eq, rank_le c.priority))
            (subst (λ j. AtLeast reverse_rank (suc j) c.before) (sym c.key_eq) c.before_greater)
            (AtLeast-AtMost k (rank c.priority) q.items (omega (arith, c.key_eq)) c.all_at_least))
    | inr more ↦
        rw more (
          refused_push full (inr (AtLeast-AtMost k (rank p) q.items (ground arith) c.all_at_least)))
  ]

  -- Where a queue has room, a push appends the item. In a full queue of positive capacity whose
  -- least urgent items are less urgent than the item, it removes the oldest of those, counts a
  -- drop, and appends the item. Else it refuses the item and counts a drop, and then the capacity
  -- is zero or the queue is full of items at least as urgent.
  pub queue_push-Pushes :
      (q : BoundedQueue T) (p : Priority) (x : T) → Pushes q p x (queue_push q p x)
  unfolding queue_push
  queue_push-Pushes q p x = elim (Bool-cases (q.config.capacity == 0)) [
    | inl none_fit ↦ rw none_fit (refused_push (ground arith) (inl (ground arith)))
    | inr some_fit ↦ elim (Bool-cases (leb q.config.capacity (length q.items))) [
      | inl full ↦
          rw (some_fit, full)
            (push_full-Pushes q p x (first_least reverse_rank q.items) (ground arith) (ground arith)
              (first_least-Chooses reverse_rank q.items))
      | inr room ↦ rw (some_fit, room) (accepted (ground arith))
    ]
  ]

  -- What the length of a queue and its count of drops owe to each other.
  abbrev pub Balanced : BoundedQueue T → BoundedQueue T × ℕ → Type 0
  Balanced q (r, n) =
      (length r.items ≤ q.config.capacity)
      × (length r.items + r.dropped ≡ length q.items + q.dropped + 1)

  swapped_length :
      (items before after : List (Priority × T)) (a b : Priority × T)
      → items ≡ before ++ a ∷ after
      → length ((before ++ after) ++ b ∷ []) ≡ length items
  swapped_length items before after a b h = omega (
    arith,
    ap length h,
    length-append before (a ∷ after),
    length-append (before ++ after) (b ∷ []),
    length-append before after,
  )

  Pushes-Balanced :
      (q : BoundedQueue T) (p : Priority) (x : T) (r : BoundedQueue T × ℕ)
      → Pushes q p x r
      → length q.items ≤ q.config.capacity
      → q.dropped < u64_max
      → Balanced q r
  Pushes-Balanced q p x r (accepted room) h d = omega (arith, length-append q.items ((p, x) ∷ []))
  Pushes-Balanced q p x r (evicted before after v y full cap items_eq less front all) h d =
      omega (arith, swapped_length q.items before after (v, y) (p, x) items_eq)
  Pushes-Balanced q p x r (refused_push full all) h d = omega arith

  -- Where a queue is within its capacity and its count of drops below the u64 limit, a push keeps
  -- it within its capacity and counts what it loses: the items in the queue and the drops counted
  -- grow by exactly one together.
  pub queue_push-Balanced :
      (q : BoundedQueue T) (p : Priority) (x : T)
      → length q.items ≤ q.config.capacity
      → q.dropped < u64_max
      → Balanced q (queue_push q p x)
  queue_push-Balanced q p x h d =
      Pushes-Balanced q p x (queue_push q p x) (queue_push-Pushes q p x) h d
