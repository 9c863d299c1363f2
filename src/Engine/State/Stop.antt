-- ===== src/Engine/State/Stop.antt =====
-- Stopping and destroying: the engine ends idle or destroyed, with nothing owned.
use cheetah_media_engine.Prelude.{ℕ, suc, ◌≡◌, ◌≢◌, refl, arith, true, List, [], ◌∷◌}
use cheetah_media_engine.Engine.Resource
use cheetah_media_engine.Engine.Resource.{new_ledger}
use cheetah_media_engine.Engine.State.{
  Engine, transition, ledger_zero, reset_ledger, stop_in, on_stop,
}
use cheetah_media_engine.Engine.State.Command.{idle, destroyed, EngineEvent, stopped}

pub new_ledger_zero : Resource.is_zero new_ledger ≡ true
unfolding Resource.is_zero
new_ledger_zero = refl

-- How many times the output says that the stop is complete.
abbrev pub stops : List EngineEvent → ℕ
stops [] = 0
stops (stopped ∷ evs) = suc (stops evs)
stops (_ ∷ evs) = stops evs

-- A stop of an engine that is neither idle nor destroyed completes at once: the engine is idle, owns
-- nothing, and has said exactly once that it stopped.
pub on_stop_completes :
    (e : Engine)
    → e.state ≢ idle
    → e.state ≢ destroyed
    → ((on_stop e).0.state ≡ idle) × (ledger_zero (on_stop e).0 ≡ true) × (stops (on_stop e).1 ≡ 1)
unfolding on_stop stop_in reset_ledger transition Resource.reset
on_stop_completes e h k = ground (arith, new_ledger_zero)
