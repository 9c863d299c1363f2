-- ===== src/Engine/Scheduler/Select.antt =====
-- The choice of an item in a queue: the first one with the least key.
use cheetah_media_engine.Prelude.{
  ℕ, suc, ◌≤◌, ◌≡◌, inl, inr, refl, sym, ap, subst, arith, tests, List, [], ◌∷◌, ◌++◌, length,
  Option, none, some, Bool-cases, leb,
}
use cheetah_media_engine.Engine.Scheduler.Bounded.{
  Priority, rank, nearer, first_least, remove_at, BoundedQueue, pop_at, queue_pop,
}

module _ {ℓ} {T : Type ℓ} where
  -- Every item's key is at least `k`.
  abbrev pub AtLeast : (Priority → ℕ) → ℕ → List (Priority × T) → Type 0
  AtLeast key k [] = Unit {0}
  AtLeast key k ((p, x) ∷ xs) = (k ≤ key p) × AtLeast key k xs

  pub AtLeast-weaken :
      (key : Priority → ℕ) {j k : ℕ} (xs : List (Priority × T))
      → j ≤ k
      → AtLeast key k xs
      → AtLeast key j xs
  AtLeast-weaken key [] h a = tt
  AtLeast-weaken key ((p, x) ∷ xs) h a = (omega (arith, a.0), AtLeast-weaken key xs h a.1)

  -- An item with its place: the least key is its own, and those before it are greater.
  pub record Chosen (key : Priority → ℕ) (items : List (Priority × T)) (i k : ℕ) : Type ℓ where
    pub before : List (Priority × T)
    pub priority : Priority
    pub item : T
    pub after : List (Priority × T)
    pub items_eq : items ≡ before ++ (priority, item) ∷ after
    pub index_eq : length before ≡ i
    pub key_eq : key priority ≡ k
    pub before_greater : AtLeast key (suc k) before
    pub all_at_least : AtLeast key k items

  abbrev pub Chooses : (Priority → ℕ) → List (Priority × T) → Option (ℕ × ℕ) → Type ℓ
  Chooses key items none = items ≡ []
  Chooses key items (some (i, k)) = Chosen key items i k

  nearer-Chooses :
      (key : Priority → ℕ) (p : Priority) (x : T) (xs : List (Priority × T)) (r : Option (ℕ × ℕ))
      → Chooses key xs r
      → Chooses key ((p, x) ∷ xs) (nearer (key p) r)
  nearer-Chooses key p x xs none h = record {
    before = [];
    priority = p;
    item = x;
    after = xs;
    items_eq = refl;
    index_eq = refl;
    key_eq = refl;
    before_greater = tt;
    all_at_least = (omega arith, subst (AtLeast key (key p)) (sym h) tt);
  }
  nearer-Chooses key p x xs (some (i, k)) h = elim (Bool-cases (leb (key p) k)) [
    | inl near ↦ rw near (record {
      before = [];
      priority = p;
      item = x;
      after = xs;
      items_eq = refl;
      index_eq = refl;
      key_eq = refl;
      before_greater = tt;
      all_at_least = (omega arith, AtLeast-weaken key xs (omega tests) h.all_at_least);
    })
    | inr far ↦ rw far (record {
      before = (p, x) ∷ h.before;
      priority = h.priority;
      item = h.item;
      after = h.after;
      items_eq = ap (λ l. (p, x) ∷ l) h.items_eq;
      index_eq = ap suc h.index_eq;
      key_eq = h.key_eq;
      before_greater = (ground arith, h.before_greater);
      all_at_least = (ground arith, h.all_at_least);
    })
  ]

  pub first_least-Chooses :
      (key : Priority → ℕ) (items : List (Priority × T)) → Chooses key items (first_least key items)
  unfolding first_least
  first_least-Chooses key [] = refl
  first_least-Chooses key ((p, x) ∷ xs) =
      nearer-Chooses key p x xs (first_least key xs) (first_least-Chooses key xs)

  pub remove_at-append :
      (xs : List (Priority × T)) (p : Priority) (x : T) (ys : List (Priority × T))
      → remove_at (xs ++ (p, x) ∷ ys) (length xs) ≡ (some x, xs ++ ys)
  unfolding remove_at
  remove_at-append [] p x ys = refl
  remove_at-append ((q, y) ∷ xs) p x ys = rw (remove_at-append xs p x ys) refl

  pub remove_at-Chosen :
      (key : Priority → ℕ) (items : List (Priority × T)) (i k : ℕ) (c : Chosen key items i k)
      → remove_at items i ≡ (some c.item, c.before ++ c.after)
  remove_at-Chosen key items i k c =
      rw (c.items_eq, sym c.index_eq) (remove_at-append c.before c.priority c.item c.after)

  -- What a pop does to a queue.
  abbrev pub Pops : BoundedQueue T → BoundedQueue T × Option T → Type ℓ
  Pops q (r, none) = (q.items ≡ []) × (r ≡ q)
  Pops q (r, some x) =
      (before : List (Priority × T)) × (p : Priority) × (after : List (Priority × T)) × (q.items
        ≡ before ++ (p, x) ∷ after)
      × (r ≡ record q { items = before ++ after })
      × AtLeast rank (suc (rank p)) before
      × AtLeast rank (rank p) q.items

  pop_at-Pops :
      (q : BoundedQueue T) (r : Option (ℕ × ℕ)) → Chooses rank q.items r → Pops q (pop_at q r)
  pop_at-Pops q none h = (h, refl)
  pop_at-Pops q (some (i, k)) c = rw (remove_at-Chosen rank q.items i k c) (
    c.before,
    c.priority,
    c.after,
    c.items_eq,
    refl,
    subst (λ j. AtLeast rank (suc j) c.before) (sym c.key_eq) c.before_greater,
    subst (λ j. AtLeast rank j q.items) (sym c.key_eq) c.all_at_least,
  )

  -- A pop takes the oldest of the most urgent items and leaves the others in their order; it takes
  -- nothing, and changes nothing, exactly where the queue is empty.
  pub queue_pop-Pops : (q : BoundedQueue T) → Pops q (queue_pop q)
  unfolding queue_pop
  queue_pop-Pops q = pop_at-Pops q (first_least rank q.items) (first_least-Chooses rank q.items)
