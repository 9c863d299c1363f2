-- ===== src/Engine/State/Tests.antt =====
-- The theorems on the engine's state machine at concrete engines.
use cheetah_media_engine.Prelude.{◌≡◌, ◌≤◌, refl, arith, List, [], ◌∷◌, true}
use cheetah_media_engine.Types.Track.{next_epoch, TrackInfo, new_track}
use cheetah_media_engine.Types.Format.{video, h264}
use cheetah_media_engine.Types.Time.{ts_90k}
use cheetah_media_engine.Engine.Resource
use cheetah_media_engine.Engine.Resource.{ResourceLedger, timer, new_ledger}
use cheetah_media_engine.Engine.Recovery.{
  reconnect_source, retry, default_player, in_window, budget, attempts, decide, Attempt, classify,
  delay_for,
}
use cheetah_media_engine.Engine.State.{
  Engine, act_on, play_in, new_engine, ledger_zero, on_stop, on_load, on_backend, on_network,
  on_play, recover_or_fail, decision, apply, done, dispatch, start_new_session, reset_ledger,
  stop_in, transition, load_in, open_session,
}
use cheetah_media_engine.Engine.State.Command.{
  idle, loading, playing, stopping, rebuffering, EngineEvent, state_changed, stopped,
  resource_warning, LoadRequest, decoder_error, load, stop, fatal,
}
use cheetah_media_engine.Engine.State.Trace.{
  Follows, Resumes, Runs, start, applied, edits_ledger, apply-Sound, new_engine-Runs,
}
use cheetah_media_engine.Engine.State.Stop.{stops, on_stop_completes}
use cheetah_media_engine.Engine.State.Session.{IsFresh, on_load-IsFresh, old_events_ignored}
use cheetah_media_engine.Engine.State.Fault.{Outcome, recover_or_fail-Outcome}

abbrev one_timer : ResourceLedger
one_timer = record { counts = 0 ∷ 1 ∷ 0 ∷ 0 ∷ 0 ∷ 0 ∷ 0 ∷ 0 ∷ 0 ∷ 0 ∷ [] }

abbrev playing_engine : Engine
playing_engine = record new_engine { state = playing; epoch = 3; ledger = one_timer; now_ms = 1000 }

abbrev stopped_engine : Engine
stopped_engine = record playing_engine { state = idle; ledger = new_ledger; sequence = 1 }

abbrev stop_events : List EngineEvent
stop_events =
    state_changed playing stopping
    ∷ resource_warning (timer ∷ []) 1
    ∷ state_changed stopping idle
    ∷ stopped
    ∷ []

stop_a_playing_engine : apply stop playing_engine ≡ done stopped_engine stop_events
unfolding apply dispatch on_stop stop_in transition reset_ledger Resource.reset Resource.is_zero
    Resource.total Resource.open_kinds
stop_a_playing_engine = refl

apply-Sound_example : Follows playing stop_events idle × Resumes stopped_engine
apply-Sound_example =
    apply-Sound stop playing_engine stopped_engine stop_events refl stop_a_playing_engine

abbrev live_stream : LoadRequest
live_stream = record { url = "https://example.com/live.flv"; is_live = true }

abbrev loaded_engine : Engine
loaded_engine = record new_engine { state = loading; epoch = 1; sequence = 1; is_live = true }

load_a_stream : Runs new_engine (state_changed idle loading ∷ []) loaded_engine
unfolding apply dispatch on_load load_in open_session start_new_session transition reset_ledger
    Resource.reset Resource.is_zero next_epoch
load_a_stream = applied (load live_stream) (start new_engine) refl

-- A backend has taken a timer after the load.
abbrev timed_engine : Engine
timed_engine = record loaded_engine { ledger = Resource.acquire new_ledger timer }

take_a_timer : Runs new_engine (state_changed idle loading ∷ []) timed_engine
take_a_timer = edits_ledger (Resource.acquire new_ledger timer) load_a_stream

new_engine-Runs_example :
    Follows idle (state_changed idle loading ∷ []) loading × Resumes timed_engine
new_engine-Runs_example =
    new_engine-Runs {f = timed_engine} {xs = state_changed idle loading ∷ []} take_a_timer

on_stop_completes_example :
    ((on_stop playing_engine).0.state ≡ idle)
    × (ledger_zero (on_stop playing_engine).0 ≡ true)
    × (stops (on_stop playing_engine).1 ≡ 1)
on_stop_completes_example = on_stop_completes playing_engine (λ h. cc) (λ h. cc)

on_load-IsFresh_example : IsFresh (next_epoch 3) true (on_load live_stream playing_engine).0
on_load-IsFresh_example = on_load-IsFresh live_stream playing_engine (λ h. cc)

old_events_ignored_example :
    on_backend (decoder_error 3 1 7) (on_load live_stream playing_engine).0
    ≡ ((on_load live_stream playing_engine).0, [])
old_events_ignored_example =
    old_events_ignored live_stream playing_engine (decoder_error 3 1 7) (λ h. cc) (omega arith) refl

abbrev camera : TrackInfo
camera = new_track 1 video h264 ts_90k

recover_or_fail-Outcome_example :
    Outcome 7 "decoder" playing_engine
      (decision 7 "decoder" playing_engine)
      (recover_or_fail 7 "decoder" playing_engine)
recover_or_fail-Outcome_example =
    recover_or_fail-Outcome 7 "decoder" playing_engine (λ h. cc) (λ h. cc)

abbrev one_reconnect : Attempt
one_reconnect = record { code = 9; stage = "network"; action = reconnect_source; at_ms = 1000 }

-- A playing engine after five reconnects at the time 1000.
abbrev worn_engine : Engine
worn_engine = record playing_engine {
  recovery_tracker = record {
    history = one_reconnect ∷ one_reconnect ∷ one_reconnect ∷ one_reconnect ∷ one_reconnect ∷ [];
  };
}

five_reconnects :
    5
    ≤ in_window
        (budget default_player reconnect_source)
        1000
        (attempts worn_engine.recovery_tracker 9 "network" reconnect_source)
unfolding in_window attempts
five_reconnects = omega arith

first_reconnect : decision 9 "network" new_engine ≡ retry reconnect_source 500 5
unfolding decide classify in_window attempts delay_for
first_reconnect = refl

-- A reconnect is granted to an engine without a session, and a `play` then makes it playing.
idle_engine_revived :
    let f = (on_network (fatal 9) new_engine).0 in
    (f.state ≡ rebuffering) × ((on_play f).0.state ≡ playing)
unfolding on_network recover_or_fail act_on transition on_play play_in
idle_engine_revived = rw first_reconnect (refl, refl)
