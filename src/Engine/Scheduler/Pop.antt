-- ===== src/Engine/Scheduler/Pop.antt =====
-- A pop from the scheduler: the most urgent item of all queues, from the earliest queue that has one.
use cheetah_media_engine.Prelude.{
  ℕ, zero, suc, ◌≤◌, ◌≡◌, refl, sym, subst, arith, leb→le, List, [], ◌∷◌, ◌++◌, length, get_elem?,
  set, take, Option, none, some, map_option, Bool-cases, inl, inr, leb,
}
use cheetah_media_engine.Engine.Scheduler.{
  least_of, earlier, least_rank, first_queue, QueueName, Scheduler, pop_from, pop,
}
use cheetah_media_engine.Engine.Scheduler.Bounded.{
  Priority, rank, nearer, first_least, BoundedQueue, queue_pop,
}
use cheetah_media_engine.Engine.Scheduler.Select.{
  AtLeast, AtLeast-weaken, Chosen, Chooses, first_least-Chooses, remove_at-Chosen,
}

abbrev key_of : Option (ℕ × ℕ) → Option ℕ
key_of r = map_option (λ (i, k). k) r

least_of-nearer : (k : ℕ) (r : Option (ℕ × ℕ)) → least_of k (key_of r) ≡ key_of (nearer k r)
least_of-nearer k none = refl
least_of-nearer k (some (i, least)) = elim (Bool-cases (leb k least)) [
  | inl a ↦ rw a refl
  | inr a ↦ rw a refl
]

get_elem?-same_length {ℓ κ} :
    {A : Type ℓ} {B : Type κ} (xs : List A) (ys : List B) (i : ℕ) (y : B)
    → length xs ≡ length ys
    → get_elem? ys i ≡ some y
    → (x : A) × (get_elem? xs i ≡ some x)
get_elem?-same_length xs [] i y h e = absurd (none_is_some e)
  where
    none_is_some : none ≡ some y → ⊥
    none_is_some p = cc
get_elem?-same_length [] (y' ∷ ys) i y h e = absurd (omega (arith, h))
get_elem?-same_length (x ∷ xs) (y' ∷ ys) zero y h e = (x, refl)
get_elem?-same_length (x ∷ xs) (y' ∷ ys) (suc i) y h e =
    get_elem?-same_length xs ys i y (omega (arith, h)) e

module _ {ℓ} {T : Type ℓ} where
  least_rank-first_least :
      (items : List (Priority × T)) → least_rank items ≡ key_of (first_least rank items)
  unfolding least_rank first_least
  least_rank-first_least [] = refl
  least_rank-first_least ((p, x) ∷ xs) =
      rw (least_rank-first_least xs) (least_of-nearer (rank p) (first_least rank xs))

  -- Every item of every queue has a rank of at least `k`.
  abbrev pub AllAtLeast : ℕ → List (BoundedQueue T) → Type 0
  AllAtLeast k [] = Unit {0}
  AllAtLeast k (q ∷ qs) = AtLeast rank k q.items × AllAtLeast k qs

  AllAtLeast-weaken :
      {j k : ℕ} (qs : List (BoundedQueue T)) → j ≤ k → AllAtLeast k qs → AllAtLeast j qs
  AllAtLeast-weaken [] h a = tt
  AllAtLeast-weaken (q ∷ qs) h a = (AtLeast-weaken rank q.items h a.0, AllAtLeast-weaken qs h a.1)

  abbrev pub AllEmpty : List (BoundedQueue T) → Type ℓ
  AllEmpty [] = Unit
  AllEmpty (q ∷ qs) = (q.items ≡ []) × AllEmpty qs

  -- The queue at the index, its own first item of the rank, and no item anywhere of a lesser one.
  -- The queues before it have greater ranks only.
  pub record Leads (qs : List (BoundedQueue T)) (i k : ℕ) : Type ℓ where
    pub queue : BoundedQueue T
    pub place : ℕ
    pub at_index : get_elem? qs i ≡ some queue
    pub chosen : first_least rank queue.items ≡ some (place, k)
    pub all_at_least : AllAtLeast k qs
    pub before_greater : AllAtLeast (suc k) (take i qs)

  abbrev pub LeadsAt : List (BoundedQueue T) → Option (ℕ × ℕ) → Type ℓ
  LeadsAt qs none = AllEmpty qs
  LeadsAt qs (some (i, k)) = Leads qs i k

  AllEmpty-AllAtLeast : (k : ℕ) (qs : List (BoundedQueue T)) → AllEmpty qs → AllAtLeast k qs
  AllEmpty-AllAtLeast k [] h = tt
  AllEmpty-AllAtLeast k (q ∷ qs) h =
      (subst (AtLeast rank k) (sym h.0) tt, AllEmpty-AllAtLeast k qs h.1)

  -- A queue ahead of the others, whose items are all less urgent than the leading one.
  later :
      (q : BoundedQueue T) (qs : List (BoundedQueue T)) (i k : ℕ)
      → AtLeast rank (suc k) q.items
      → Leads qs i k
      → Leads (q ∷ qs) (suc i) k
  later q qs i k a h = record {
    queue = h.queue;
    place = h.place;
    at_index = h.at_index;
    chosen = h.chosen;
    all_at_least = (AtLeast-weaken rank q.items (omega arith) a, h.all_at_least);
    before_greater = (a, h.before_greater);
  }

  at_front :
      (q : BoundedQueue T) (qs : List (BoundedQueue T)) (m k : ℕ)
      → first_least rank q.items ≡ some (m, k)
      → Chosen rank q.items m k
      → AllAtLeast k qs
      → Leads (q ∷ qs) 0 k
  at_front q qs m k e c a = record {
    queue = q;
    place = m;
    at_index = refl;
    chosen = e;
    all_at_least = (c.all_at_least, a);
    before_greater = tt;
  }

  earlier-LeadsAt :
      (q : BoundedQueue T) (qs : List (BoundedQueue T)) (f r : Option (ℕ × ℕ))
      → first_least rank q.items ≡ f
      → Chooses rank q.items f
      → LeadsAt qs r
      → LeadsAt (q ∷ qs) (earlier (key_of f) r)
  earlier-LeadsAt q qs none none e c h = (c, h)
  earlier-LeadsAt q qs none (some (i, k)) e c h =
      later q qs i k (subst (AtLeast rank (suc k)) (sym c) tt) h
  earlier-LeadsAt q qs (some (m, k)) none e c h = at_front q qs m k e c (AllEmpty-AllAtLeast k qs h)
  earlier-LeadsAt q qs (some (m, k)) (some (i, l)) e c h = elim (Bool-cases (leb k l)) [
    | inl near ↦
        rw near (at_front q qs m k e c (AllAtLeast-weaken qs (leb→le k l near) h.all_at_least))
    | inr far ↦
        rw far (later q qs i l (AtLeast-weaken rank q.items (ground arith) c.all_at_least) h)
  ]

  first_queue-LeadsAt : (qs : List (BoundedQueue T)) → LeadsAt qs (first_queue qs)
  unfolding first_queue
  first_queue-LeadsAt [] = tt
  first_queue-LeadsAt (q ∷ qs) = rw (least_rank-first_least q.items) (
      earlier-LeadsAt q qs (first_least rank q.items) (first_queue qs) refl
        (first_least-Chooses rank q.items) (first_queue-LeadsAt qs))

  -- What a pop of the scheduler does.
  abbrev pub TakesFirst : Scheduler T → Scheduler T × Option (QueueName × T) → Type ℓ
  TakesFirst s (t, none) = AllEmpty s.queues × (t ≡ s)
  TakesFirst s (t, some (name, x)) =
      (i : ℕ) × (q : BoundedQueue T) × (before : List (Priority × T)) × (p : Priority)
      × (after : List (Priority × T)) × (get_elem? s.names i ≡ some name)
      × (get_elem? s.queues i ≡ some q)
      × (q.items ≡ before ++ (p, x) ∷ after)
      × AtLeast rank (suc (rank p)) before
      × AllAtLeast (suc (rank p)) (take i s.queues)
      × AllAtLeast (rank p) s.queues
      × (t ≡ record s { queues = set s.queues i (record q { items = before ++ after }) })

  pop_from-TakesFirst :
      (s : Scheduler T) (r : Option (ℕ × ℕ))
      → length s.names ≡ length s.queues
      → LeadsAt s.queues r
      → TakesFirst s (pop_from s r)
  unfolding pop_from queue_pop
  pop_from-TakesFirst s none len h = (h, refl)
  pop_from-TakesFirst s (some (i, k)) len h =
      let c : Chosen rank h.queue.items h.place k =
        subst (Chooses rank h.queue.items) h.chosen (first_least-Chooses rank h.queue.items) in
      let (name, named) = get_elem?-same_length s.names s.queues i h.queue len h.at_index in
      let popped : pop_from s (some (i, k)) ≡ (
        record s { queues = set s.queues i (record h.queue { items = c.before ++ c.after }) },
        some (name, c.item),
      ) =
        rw (h.at_index, h.chosen, remove_at-Chosen rank h.queue.items h.place k c, named) refl in
      subst (TakesFirst s) (sym popped) (
        i,
        h.queue,
        c.before,
        c.priority,
        c.after,
        named,
        h.at_index,
        c.items_eq,
        subst (λ j. AtLeast rank (suc j) c.before) (sym c.key_eq) c.before_greater,
        subst (λ j. AllAtLeast (suc j) (take i s.queues)) (sym c.key_eq) h.before_greater,
        subst (λ j. AllAtLeast j s.queues) (sym c.key_eq) h.all_at_least,
        refl,
      )

  -- For a scheduler that has a name for each queue, a pop takes nothing exactly where all queues are
  -- empty. Else it takes an item that no item anywhere is more urgent than; every item in an earlier
  -- queue, or before it in its own, is less urgent; all else stays as it is.
  pub pop-TakesFirst : (s : Scheduler T) → length s.names ≡ length s.queues → TakesFirst s (pop s)
  unfolding pop
  pop-TakesFirst s len =
      pop_from-TakesFirst s (first_queue s.queues) len (first_queue-LeadsAt s.queues)
