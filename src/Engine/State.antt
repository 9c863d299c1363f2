-- ===== src/Engine/State.antt =====
-- crates/cheetah-media-engine/src/state.rs: the engine's lifecycle state machine.
-- A handler returns the engine and the events that it pushes to the output, in order.
pub mod Command
pub mod Trace
pub mod Session
pub mod Stop
pub mod Fault
mod Tests
use cheetah_media_engine.Prelude.{
  ℕ, ◌+◌, ◌-◌, ◌%◌, ◌^◌, String, Bool, true, false, not, ◌&&◌, ◌||◌, List, [], ◌∷◌, ◌++◌, Option,
  none, some, sat_add32, ◌==◌, if◌then◌else◌,
}
use cheetah_media_engine.Types.Track.{StreamEpoch, TrackId, TrackInfo, next_epoch}
use cheetah_media_engine.Engine.Resource
use cheetah_media_engine.Engine.Resource.{ResourceKind, ResourceLedger, new_ledger}
use cheetah_media_engine.Engine.Recovery.{
  RecoveryAction, reconnect_source, action_index, RecoveryDecision, retry, escalate, give_up,
  RecoveryPolicy, default_player, RecoveryTracker, new_tracker, max_window_ms, decide, attempts,
  record_attempt, prune,
}
use cheetah_media_engine.Engine.Latency.{LatencyController, default_latency}
use cheetah_media_engine.Engine.Metrics.{Metrics, MetricsSnapshot, new_metrics, snapshot}
use Command.{
  PlayerState, idle, loading, preroll, playing, paused, rebuffering, stopping, failed, destroyed,
  same_state, EngineError, invalid_state, backend_error, destroyed_error, EngineEvent,
  state_changed, track_added, track_config_changed, eof_reached, error_raised, recovery_scheduled,
  resource_warning, stopped, engine_destroyed, metrics_taken, LoadRequest, NetworkEvent, connected,
  eof, retryable, fatal, BackendEvent, track, config_changed, decoder_ready, decoder_error,
  rendered, backend_stopped, EngineCommand, load, play, pause, stop, destroy, network, backend,
  get_metrics,
}

pub record Engine : Type 0 where
  pub state : PlayerState
  pub epoch : StreamEpoch
  pub sequence : ℕ
  pub has_track : Bool
  pub has_config : Bool
  pub pre_rebuffer_state : PlayerState
  pub track_count : ℕ
  pub recovery_policy : RecoveryPolicy
  pub recovery_tracker : RecoveryTracker
  pub ledger : ResourceLedger
  pub latency : LatencyController
  pub metrics : Metrics
  pub now_ms : ℕ
  pub is_live : Bool

abbrev pub new_engine : Engine
new_engine = record {
  state = idle;
  epoch = 0;
  sequence = 0;
  has_track = false;
  has_config = false;
  pre_rebuffer_state = idle;
  track_count = 0;
  recovery_policy = default_player;
  recovery_tracker = new_tracker;
  ledger = new_ledger;
  latency = default_latency;
  metrics = new_metrics;
  now_ms = 0;
  is_live = false;
}

-- A piece of a handler: the engine it leaves and the events it pushes.
abbrev pub M : Type 0
M = Engine → Engine × List EngineEvent

infixl 5 ◌>>◌
abbrev pub ◌>>◌ : M → M → M
◌>>◌ f g e = let (a, xs) = f e in let (b, ys) = g a in (b, xs ++ ys)

abbrev pub skip : M
skip e = (e, [])

abbrev pub push : EngineEvent → M
push ev e = (e, ev ∷ [])

abbrev pub modify : (Engine → Engine) → M
modify f e = (f e, [])

-- A test of the engine as it is when the piece runs.
abbrev pub when : (Engine → Bool) → M → M
when test m e = if test e then m e else (e, [])

abbrev pub in_state : PlayerState → Engine → Bool
in_state s e = same_state e.state s

abbrev pub ledger_zero : Engine → Bool
ledger_zero e = Resource.is_zero e.ledger

unfoldable pub tick : ℕ → Engine → Engine
tick now e = record e {
  now_ms = now;
  recovery_tracker = prune e.recovery_tracker (now - max_window_ms e.recovery_policy);
}

pub transition : PlayerState → M
transition to e =
    if same_state e.state to
    then (e, [])
    else (record e { state = to }, state_changed e.state to ∷ [])

pub reset_ledger : M
reset_ledger = do
  when (λ e. not (ledger_zero e))
      (λ e. push (resource_warning (Resource.open_kinds e.ledger) (Resource.total e.ledger)) e)
  modify (λ e. record e { ledger = (Resource.reset e.ledger).0 })

pub start_new_session : M
start_new_session = do
  modify (λ e. record e {
    epoch = next_epoch e.epoch;
    has_track = false;
    has_config = false;
    track_count = 0;
    pre_rebuffer_state = idle;
    recovery_tracker = new_tracker;
    latency = default_latency;
    is_live = false;
  })
  reset_ledger

-- The `match` on the state.
stop_in : PlayerState → M
stop_in idle = skip
stop_in stopping = when ledger_zero (do transition idle; push stopped)
stop_in destroyed = push (error_raised destroyed_error)
stop_in _ = transition stopping

pub on_stop : M
on_stop = do
  λ e. stop_in e.state e
  when (λ e. in_state stopping e && not (ledger_zero e)) reset_ledger
  when (λ e. in_state stopping e && ledger_zero e) (do transition idle; push stopped)

open_session : Bool → M
open_session live = do
  start_new_session
  modify (λ e. record e { is_live = live })
  transition loading

load_in : PlayerState → Bool → M
load_in idle live = open_session live
load_in failed live = open_session live
load_in destroyed live = push (error_raised destroyed_error)
load_in _ live = do on_stop; open_session live

pub on_load : LoadRequest → M
on_load req e = load_in e.state req.is_live e

play_in : PlayerState → M
play_in preroll = transition playing
play_in paused = transition playing
play_in rebuffering = transition playing
play_in playing = skip
play_in s = push (error_raised (invalid_state s "play"))

pub on_play : M
on_play e = play_in e.state e

pause_in : PlayerState → M
pause_in playing = transition paused
pause_in paused = skip
pause_in s = push (error_raised (invalid_state s "pause"))

pub on_pause : M
on_pause e = pause_in e.state e

pub on_destroy : M
on_destroy e =
    if in_state destroyed e
    then (e, [])
    else (do reset_ledger; transition destroyed; push engine_destroyed) e

pub fail : ℕ → String → M
fail code stage =
    when (λ e. not (in_state destroyed e) && not (in_state failed e))
      (do push (error_raised (backend_error stage code)); transition failed)

abbrev same_action : RecoveryAction → RecoveryAction → Bool
same_action a b = action_index a == action_index b

abbrev note_attempt : ℕ → String → RecoveryAction → M
note_attempt code stage a =
    modify
      (λ e. record e { recovery_tracker = record_attempt e.recovery_tracker code stage a e.now_ms })

-- `pre_rebuffer_state` before the move to `Rebuffering` for a reconnect.
abbrev remember : M
remember = modify (λ e. record e {
  pre_rebuffer_state = if in_state rebuffering e then e.pre_rebuffer_state else e.state;
})

-- The `match` on the decision.
act_on : ℕ → String → RecoveryDecision → M
act_on code stage (retry a delay left) = do
  note_attempt code stage a
  when (λ e. same_action a reconnect_source && not (in_state loading e))
      (do remember; transition rebuffering)
  push (recovery_scheduled a stage code delay left)
act_on code stage (escalate a) = do note_attempt code stage a; fail code stage
act_on code stage give_up = fail code stage

abbrev decision : ℕ → String → Engine → RecoveryDecision
decision code stage e =
    decide e.recovery_policy code stage e.now_ms (λ a. attempts e.recovery_tracker code stage a)

pub recover_or_fail : ℕ → String → M
recover_or_fail code stage e =
    if in_state destroyed e || in_state failed e
    then (e, [])
    else act_on code stage (decision code stage e) e

eof_in : PlayerState → M
eof_in loading = do push eof_reached; transition stopping
eof_in preroll = do push eof_reached; transition stopping
eof_in playing = do push eof_reached; transition stopping
eof_in paused = do push eof_reached; transition stopping
eof_in rebuffering = do push eof_reached; transition stopping
eof_in _ = skip

rebuffer : M
rebuffer = do modify (λ e. record e { pre_rebuffer_state = e.state }); transition rebuffering

retryable_in : PlayerState → M
retryable_in playing = rebuffer
retryable_in paused = rebuffer
retryable_in _ = skip

pub on_network : NetworkEvent → M
on_network connected e = when (in_state rebuffering) (λ e. transition e.pre_rebuffer_state e) e
on_network eof e = eof_in e.state e
on_network retryable e = retryable_in e.state e
on_network (fatal code) e = recover_or_fail code "network" e

pub maybe_enter_preroll : M
maybe_enter_preroll =
    when (λ e. in_state loading e && e.has_track && e.has_config) (transition preroll)

abbrev pub event_epoch : BackendEvent → Option StreamEpoch
event_epoch (track ep info) = some ep
event_epoch (config_changed ep t g) = some ep
event_epoch (decoder_ready ep t) = some ep
event_epoch (decoder_error ep t c) = some ep
event_epoch (rendered ep t) = some ep
event_epoch backend_stopped = none

-- An event of another epoch than the engine's.
abbrev pub stale : Option StreamEpoch → StreamEpoch → Bool
stale none current = false
stale (some ep) current = not (ep == current)

handle_backend : BackendEvent → M
handle_backend (track ep info) = do
  modify (λ e. record e { has_track = true; track_count = sat_add32 e.track_count 1 })
  push (track_added info)
  maybe_enter_preroll
handle_backend (config_changed ep t g) = do
  modify (λ e. record e { has_config = true })
  push (track_config_changed t g)
  maybe_enter_preroll
handle_backend (decoder_ready ep t) = skip
handle_backend (decoder_error ep t code) = recover_or_fail code "decoder"
handle_backend (rendered ep t) = skip
handle_backend backend_stopped = when (in_state stopping) (do transition idle; push stopped)

pub on_backend : BackendEvent → M
on_backend ev e = if stale (event_epoch ev) e.epoch then (e, []) else handle_backend ev e

pub dispatch : EngineCommand → M
dispatch (load req) = on_load req
dispatch play = on_play
dispatch pause = on_pause
dispatch stop = on_stop
dispatch destroy = on_destroy
dispatch (network ev) = on_network ev
dispatch (backend ev) = on_backend ev
dispatch get_metrics = λ e. push (metrics_taken (snapshot e.metrics)) e

-- `Ok(out)` with the engine it leaves, or `Err(Destroyed)` with the engine unchanged.
pub data Applied : Type 0 where
  done : Engine → List EngineEvent → Applied
  refused : EngineError → Applied

abbrev bump_sequence : Engine → Engine
bump_sequence e = record e { sequence = (e.sequence + 1) % 2 ^ 64 }

abbrev pair_done : Engine × List EngineEvent → Applied
pair_done (e, evs) = done e evs

pub apply : EngineCommand → Engine → Applied
apply command e =
    if in_state destroyed e
    then refused destroyed_error
    else pair_done (dispatch command (bump_sequence e))
