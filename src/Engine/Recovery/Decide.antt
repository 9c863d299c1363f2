-- ===== src/Engine/Recovery/Decide.antt =====
-- `decide` against a reference: the first action of the escalation chain with budget left.
use cheetah_media_engine.Prelude.{
  ℕ, zero, suc, ◌+◌, ◌-◌, ◌≤◌, ◌<◌, ◌≡◌, ◌≢◌, refl, arith, String, List, [], ◌∷◌, leb, length, min,
  if◌then◌else◌, Bool-cases, inl, inr,
}
use cheetah_media_engine.Engine.Recovery.{
  RecoveryAction, retry_same, rebuild_stage, fallback_backend, reconnect_source, fatal_action,
  RecoveryDecision, retry, escalate, give_up, delay_for, RecoveryPolicy, classify, budget,
  in_window, decide_action, decide_loop, decide,
}

-- What is tried for an action, in order.
unfoldable pub chain : RecoveryAction → List RecoveryAction
chain retry_same = retry_same ∷ rebuild_stage ∷ fallback_backend ∷ reconnect_source ∷ []
chain rebuild_stage = rebuild_stage ∷ fallback_backend ∷ reconnect_source ∷ []
chain fallback_backend = fallback_backend ∷ reconnect_source ∷ []
chain reconnect_source = reconnect_source ∷ []
chain fatal_action = []

module _ (p : RecoveryPolicy) (now : ℕ) (attempts_for : RecoveryAction → List ℕ) where
  -- The first action of a list that has budget left, with its delay and attempts left.
  unfoldable pub first_within : List RecoveryAction → RecoveryDecision
  first_within [] = give_up
  first_within (a ∷ as') =
      let used = in_window (budget p a) now (attempts_for a) in
      if leb (budget p a).max_attempts used
      then first_within as'
      else retry a (delay_for (budget p a) (min (length (attempts_for a)) 30))
          ((budget p a).max_attempts - used)

  loop_chain :
      (n : ℕ) (a : RecoveryAction)
      → length (chain a) < n
      → decide_loop p now attempts_for n a ≡ first_within (chain a)
  unfolding decide_loop decide_action chain first_within
  loop_chain zero a h = absurd (omega arith)
  loop_chain (suc n) fatal_action h = refl
  loop_chain (suc n) reconnect_source h = ground arith
  loop_chain (suc n) fallback_backend h =
      ground (arith, loop_chain n reconnect_source (omega arith))
  loop_chain (suc n) rebuild_stage h = ground (arith, loop_chain n fallback_backend (omega arith))
  loop_chain (suc n) retry_same h = ground (arith, loop_chain n rebuild_stage (omega arith))

  length-chain : (a : RecoveryAction) → length (chain a) < 5
  unfolding chain
  length-chain retry_same = omega arith
  length-chain rebuild_stage = omega arith
  length-chain fallback_backend = omega arith
  length-chain reconnect_source = omega arith
  length-chain fatal_action = omega arith

  -- The five rounds of the loop are enough: `decide` answers with the first action, from the
  -- classified one along the escalation chain, whose attempts in its window are fewer than its
  -- budget, and gives up exactly where there is none.
  pub decide-first_within :
      (code : ℕ) (stage : String)
      → decide p code stage now attempts_for ≡ first_within (chain (classify p code stage))
  unfolding decide
  decide-first_within code stage =
      loop_chain 5 (classify p code stage) (length-chain (classify p code stage))

  -- What a decision promises.
  abbrev pub Promises : RecoveryDecision → Type 0
  Promises (retry a delay left) =
      (a ≢ fatal_action)
      × (in_window (budget p a) now (attempts_for a) + left ≡ (budget p a).max_attempts)
      × (0 < left)
      × (delay ≤ (budget p a).cap_ms)
  Promises (escalate a) = ⊥
  Promises give_up = Unit {0}

  abbrev Retryable : List RecoveryAction → Type 0
  Retryable [] = Unit {0}
  Retryable (a ∷ as') = (a ≢ fatal_action) × Retryable as'

  chain-Retryable : (a : RecoveryAction) → Retryable (chain a)
  unfolding chain
  chain-Retryable retry_same = ground arith
  chain-Retryable rebuild_stage = ground arith
  chain-Retryable fallback_backend = ground arith
  chain-Retryable reconnect_source = ground arith
  chain-Retryable fatal_action = tt

  first_within-Promises : (xs : List RecoveryAction) → Retryable xs → Promises (first_within xs)
  unfolding first_within delay_for
  first_within-Promises [] h = tt
  first_within-Promises (a ∷ as') h =
      elim (Bool-cases
        (leb (budget p a).max_attempts (in_window (budget p a) now (attempts_for a)))) [
          | inl spent ↦ rw spent (first_within-Promises as' h.1)
          | inr left ↦ rw left (h.0, ground arith, ground arith, omega arith)
        ]

  -- A decision is never to escalate. A retry names an action that can be retried, tells exactly how
  -- many attempts its budget leaves, of which there is at least one, and waits no longer than its cap.
  pub decide-Promises :
      (code : ℕ) (stage : String) → Promises (decide p code stage now attempts_for)
  decide-Promises code stage = rw (decide-first_within code stage) (
      first_within-Promises (chain (classify p code stage))
        (chain-Retryable (classify p code stage)))
