-- ===== src/Engine/State/Command.antt =====
-- crates/cheetah-media-engine/src/state.rs: states, errors, events and commands.
use cheetah_media_engine.Prelude.{ℕ, String, Bool, List, true, false, ◌==◌}
use cheetah_media_engine.Types.Track.{StreamEpoch, TrackId, TrackInfo}
use cheetah_media_engine.Engine.Resource.{ResourceKind}
use cheetah_media_engine.Engine.Recovery.{RecoveryAction}
use cheetah_media_engine.Engine.Metrics.{MetricsSnapshot}

pub data PlayerState : Type 0 where
  idle loading preroll playing paused rebuffering stopping failed destroyed : PlayerState

abbrev pub state_index : PlayerState → ℕ
state_index idle = 0
state_index loading = 1
state_index preroll = 2
state_index playing = 3
state_index paused = 4
state_index rebuffering = 5
state_index stopping = 6
state_index failed = 7
state_index destroyed = 8

-- `==` of states.
abbrev pub same_state : PlayerState → PlayerState → Bool
same_state a b = state_index a == state_index b

pub data EngineError : Type 0 where
  invalid_state : PlayerState → String → EngineError
  invalid_command : String → EngineError
  -- the stage and the code
  backend_error : String → ℕ → EngineError
  resource_limit : String → ℕ → ℕ → EngineError
  destroyed_error : EngineError

error_code : EngineError → ℕ
error_code (invalid_state s c) = 6001
error_code (invalid_command c) = 6002
error_code (backend_error s c) = 6100
error_code (resource_limit n c l) = 6200
error_code destroyed_error = 6999

error_stage : EngineError → String
error_stage (invalid_state s c) = "state"
error_stage (invalid_command c) = "state"
error_stage (backend_error s c) = "backend"
error_stage (resource_limit n c l) = "limit"
error_stage destroyed_error = "lifecycle"

is_recoverable : EngineError → Bool
is_recoverable (invalid_state s c) = true
is_recoverable (invalid_command c) = true
is_recoverable (backend_error s c) = false
is_recoverable (resource_limit n c l) = false
is_recoverable destroyed_error = false

pub data EngineEvent : Type 0 where
  state_changed : PlayerState → PlayerState → EngineEvent
  track_added : TrackInfo → EngineEvent
  track_config_changed : TrackId → ℕ → EngineEvent
  discontinuity : StreamEpoch → EngineEvent
  eof_reached : EngineEvent
  error_raised : EngineError → EngineEvent
  -- the action, the stage, the code, the delay, the attempts left
  recovery_scheduled : RecoveryAction → String → ℕ → ℕ → ℕ → EngineEvent
  resource_warning : List ResourceKind → ℕ → EngineEvent
  stopped : EngineEvent
  engine_destroyed : EngineEvent
  metrics_taken : MetricsSnapshot → EngineEvent

pub record LoadRequest : Type 0 where
  pub url : String
  pub is_live : Bool

pub data NetworkEvent : Type 0 where
  connected eof retryable : NetworkEvent
  fatal : ℕ → NetworkEvent

pub data BackendEvent : Type 0 where
  track : StreamEpoch → TrackInfo → BackendEvent
  config_changed : StreamEpoch → TrackId → ℕ → BackendEvent
  decoder_ready : StreamEpoch → TrackId → BackendEvent
  decoder_error : StreamEpoch → TrackId → ℕ → BackendEvent
  rendered : StreamEpoch → TrackId → BackendEvent
  backend_stopped : BackendEvent

pub data EngineCommand : Type 0 where
  load : LoadRequest → EngineCommand
  play pause stop destroy : EngineCommand
  network : NetworkEvent → EngineCommand
  backend : BackendEvent → EngineCommand
  get_metrics : EngineCommand
