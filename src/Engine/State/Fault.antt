-- ===== src/Engine/State/Fault.antt =====
-- Faults: what the engine does with a network or decoder error.
use cheetah_media_engine.Prelude.{
  ℕ, ◌≤◌, ◌≡◌, ◌≢◌, refl, sym, subst, arith, String, false, ◌||◌, List, [], ◌∷◌,
}
use cheetah_media_engine.Engine.Recovery.{
  RecoveryAction, reconnect_source, RecoveryDecision, retry, escalate, give_up, default_player,
  budget, in_window, attempts, record_attempt, classify, decide,
}
use cheetah_media_engine.Engine.Recovery.Decide.{
  decide-Promises, Promises, decide-first_within, chain, first_within,
}
use cheetah_media_engine.Engine.Recovery.Window.{retry_bounded}
use cheetah_media_engine.Engine.State.{
  Engine, transition, in_state, fail, act_on, recover_or_fail, on_network, decision,
}
use cheetah_media_engine.Engine.State.Command.{
  failed, destroyed, EngineEvent, state_changed, error_raised, backend_error, fatal,
}

-- What the engine does with a decision.
abbrev pub Outcome : ℕ → String → Engine → RecoveryDecision → Engine × List EngineEvent → Type 0
Outcome code stage e (retry a delay left) (f, evs) =
    (f.recovery_tracker ≡ record_attempt e.recovery_tracker code stage a e.now_ms)
    × (in_window (budget e.recovery_policy a) e.now_ms (attempts f.recovery_tracker code stage a)
        ≤ (budget e.recovery_policy a).max_attempts)
    × (f.state ≢ failed)
Outcome code stage e (escalate a) r = ⊥
Outcome code stage e give_up (f, evs) =
    (f.state ≡ failed)
    × (f.recovery_tracker ≡ e.recovery_tracker)
    × (evs ≡ error_raised (backend_error stage code) ∷ state_changed e.state failed ∷ [])

act_on-Outcome :
    (code : ℕ) (stage : String) (e : Engine) (d : RecoveryDecision)
    → d ≡ decision code stage e
    → e.state ≢ failed
    → e.state ≢ destroyed
    → Outcome code stage e d (act_on code stage d e)
unfolding act_on fail transition
act_on-Outcome code stage e (retry a delay left) q h k = ground (
  arith,
  retry_bounded e.recovery_policy e.recovery_tracker code stage e.now_ms a delay left (sym q),
)
act_on-Outcome code stage e (escalate a) q h k = absurd (
    subst (Promises e.recovery_policy e.now_ms (attempts e.recovery_tracker code stage)) (sym q) (
      decide-Promises e.recovery_policy e.now_ms (attempts e.recovery_tracker code stage) code
        stage))
act_on-Outcome code stage e give_up q h k = ground arith

-- An error in an engine that is neither failed nor destroyed has one of two outcomes. Either a retry
-- is decided: then its attempt is recorded, the attempts of its action within its window stay within
-- the budget, and the engine is not failed. Or recovery is given up: then the engine fails, and says
-- so with the error. It never ends with an escalation.
pub recover_or_fail-Outcome :
    (code : ℕ) (stage : String) (e : Engine)
    → e.state ≢ failed
    → e.state ≢ destroyed
    → Outcome code stage e (decision code stage e) (recover_or_fail code stage e)
unfolding recover_or_fail
recover_or_fail-Outcome code stage e h k =
    let alive : (in_state destroyed e || in_state failed e) ≡ false = ground arith in
    rw alive (act_on-Outcome code stage e (decision code stage e) refl h k)

network_reconnects : (code : ℕ) → classify default_player code "network" ≡ reconnect_source
unfolding classify
network_reconnects code = refl

reconnects_spent :
    (code now : ℕ) (attempts_for : RecoveryAction → List ℕ)
    → 5 ≤ in_window (budget default_player reconnect_source) now (attempts_for reconnect_source)
    → decide default_player code "network" now attempts_for ≡ give_up
unfolding chain first_within
reconnects_spent code now attempts_for spent =
    rw (decide-first_within default_player now attempts_for code "network")
      (rw (network_reconnects code) (ground arith))

-- Under the default policy, a fatal network error fails a live engine once the reconnects within the
-- last minute have used up their budget of five.
pub network_budget_spent :
    (code : ℕ) (e : Engine)
    → e.recovery_policy ≡ default_player
    → e.state ≢ failed
    → e.state ≢ destroyed
    → 5
      ≤ in_window
          (budget default_player reconnect_source)
          e.now_ms
          (attempts e.recovery_tracker code "network" reconnect_source)
    → (on_network (fatal code) e).0.state ≡ failed
unfolding on_network
network_budget_spent code e p h k spent =
    (subst (λ d. Outcome code "network" e d (recover_or_fail code "network" e)) gives_up
      (recover_or_fail-Outcome code "network" e h k)).0
  where
    gives_up : decision code "network" e ≡ give_up
    gives_up =
        rw p (reconnects_spent code e.now_ms (attempts e.recovery_tracker code "network") spent)
