-- ===== src/Engine/Recovery/Window.antt =====
-- The tracker: recording an attempt uses up budget, and pruning old attempts does not give any back.
use cheetah_media_engine.Prelude.{
  ℕ, zero, suc, ◌+◌, ◌-◌, ◌≤◌, ◌<◌, ◌≡◌, refl, ap, ◌∙◌, sym, arith, String, List, [], ◌∷◌, ◌++◌,
  leb, Bool-cases, inl, inr, ==_iff, str_eq_iff, get_or,
}
use cheetah_media_engine.Engine.Recovery.{
  RecoveryAction, retry, RetryBudget, RecoveryPolicy, budget, in_window, action_index, decide,
  Attempt, RecoveryTracker, record_attempt, same_key, attempts_in, attempts, keep_from, prune,
  count_between, largest_window, max_window_ms, no_budget,
}
use cheetah_media_engine.Engine.Recovery.Decide.{decide-Promises, Promises}

attempts_in-append :
    (code : ℕ) (stage : String) (a : RecoveryAction) (xs ys : List Attempt)
    → attempts_in code stage a (xs ++ ys)
      ≡ attempts_in code stage a xs ++ attempts_in code stage a ys
unfolding attempts_in
attempts_in-append code stage a [] ys = refl
attempts_in-append code stage a (e ∷ es) ys = elim (Bool-cases (same_key code stage a e)) [
  | inl h ↦ rw h (ap (λ l. e.at_ms ∷ l) (attempts_in-append code stage a es ys))
  | inr h ↦ rw h (attempts_in-append code stage a es ys)
]

-- An attempt recorded under a key is the last of the key's attempts.
attempts-record_attempt :
    (t : RecoveryTracker) (code : ℕ) (stage : String) (a : RecoveryAction) (now : ℕ)
    → attempts (record_attempt t code stage a now) code stage a
      ≡ attempts t code stage a ++ now ∷ []
unfolding attempts record_attempt attempts_in
attempts-record_attempt t code stage a now =
    attempts_in-append code stage a t.history _
    ∙ rw (
      (==_iff code code).1 refl,
      (str_eq_iff stage stage).1 refl,
      (==_iff (action_index a) (action_index a)).1 refl,
    )

count_between-append :
    (start now : ℕ) (xs ys : List ℕ)
    → count_between start now (xs ++ ys) ≡ count_between start now xs + count_between start now ys
unfolding count_between
count_between-append start now [] ys = omega arith
count_between-append start now (t ∷ ts) ys = ground (arith, count_between-append start now ts ys)

in_window-snoc :
    (b : RetryBudget) (now : ℕ) (ts : List ℕ)
    → in_window b now (ts ++ now ∷ []) ≡ in_window b now ts + 1
unfolding in_window count_between
in_window-snoc b now ts = count_between-append (now - b.window_ms) now ts (now ∷ []) ∙ ground arith

-- Whenever `decide` grants a retry and the retry is recorded, the attempts of its action within its
-- window, the new one included, do not exceed its budget.
pub retry_bounded :
    (p : RecoveryPolicy) (t : RecoveryTracker) (code : ℕ) (stage : String) (now : ℕ)
    (a : RecoveryAction) (delay left : ℕ)
    → decide p code stage now (attempts t code stage) ≡ retry a delay left
    → in_window (budget p a) now (attempts (record_attempt t code stage a now) code stage a)
      ≤ (budget p a).max_attempts
retry_bounded p t code stage now a delay left e =
    let q : Promises p now (attempts t code stage) (retry a delay left) =
      rw e at (decide-Promises p now (attempts t code stage) code stage) in
    rw (attempts-record_attempt t code stage a now)
      (omega (arith, in_window-snoc (budget p a) now (attempts t code stage a), q.1, q.2))

largest_window-le :
    (bs : List RetryBudget) (i : ℕ) → (get_or bs i no_budget).window_ms ≤ largest_window bs
unfolding largest_window
largest_window-le [] i = omega arith
largest_window-le (b ∷ bs) zero = omega arith
largest_window-le (b ∷ bs) (suc i) = omega (arith, largest_window-le bs i)

count_between_same :
    (start now t : ℕ) (xs ys : List ℕ)
    → count_between start now xs ≡ count_between start now ys
    → count_between start now (t ∷ xs) ≡ count_between start now (t ∷ ys)
unfolding count_between
count_between_same start now t xs ys h = ground arith

count_between_old :
    (start now t : ℕ) (ts : List ℕ)
    → t < start
    → count_between start now (t ∷ ts) ≡ count_between start now ts
unfolding count_between
count_between_old start now t ts h = ground arith

count_between-keep_from :
    (before start now code : ℕ) (stage : String) (a : RecoveryAction) (es : List Attempt)
    → before ≤ start
    → count_between start now (attempts_in code stage a (keep_from before es))
      ≡ count_between start now (attempts_in code stage a es)
unfolding attempts_in keep_from
count_between-keep_from before start now code stage a [] h = refl
count_between-keep_from before start now code stage a (e ∷ es) h =
    elim (Bool-cases (same_key code stage a e)) [
      | inl k ↦ elim (Bool-cases (leb before e.at_ms)) [
        | inl g ↦
            rw (g, k)
              (count_between_same start now e.at_ms _ _
                (count_between-keep_from before start now code stage a es h))
        | inr g ↦
            rw (g, k)
              (count_between-keep_from before start now code stage a es h
                ∙ sym (
                    count_between_old start now e.at_ms (attempts_in code stage a es)
                      (ground arith)))
      ]
      | inr k ↦ elim (Bool-cases (leb before e.at_ms)) [
        | inl g ↦ rw (g, k) (count_between-keep_from before start now code stage a es h)
        | inr g ↦ rw (g, k) (count_between-keep_from before start now code stage a es h)
      ]
    ]

-- Pruning at the cutoff that `tick` uses, for the present or an earlier time, changes no count of
-- attempts in an action's window: no budget is given back by it.
pub in_window-prune :
    (p : RecoveryPolicy) (t : RecoveryTracker) (code : ℕ) (stage : String) (a : RecoveryAction)
    (then_ms now : ℕ)
    → then_ms ≤ now
    → in_window (budget p a) now (attempts (prune t (then_ms - max_window_ms p)) code stage a)
      ≡ in_window (budget p a) now (attempts t code stage a)
unfolding in_window attempts prune max_window_ms
in_window-prune p t code stage a then_ms now h =
    count_between-keep_from _ _ now code stage a t.history
      (omega (arith, largest_window-le p.budgets (action_index a)))
