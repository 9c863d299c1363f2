-- ===== src/Broadcast/Engine/Command.antt =====
-- crates/cheetah-media-engine/src/broadcast/engine.rs: the states, commands and events of the engine.
use cheetah_media_engine.Prelude.{ℕ, String, Bool, List, Option, ◌==◌}
use cheetah_media_engine.Types.Error.{MediaError}
use cheetah_media_engine.Types.Track.{TrackId}
use cheetah_media_engine.Broadcast.Permission.{CaptureSourceKind, PermissionState}

pub data BroadcastState : Type 0 where
  idle ready connecting starting broadcasting stopping stopped failed destroyed : BroadcastState

pub data BroadcastError : Type 0 where
  invalid_state : BroadcastState → String → BroadcastError
  pipeline_not_set : BroadcastError
  pipeline_error : MediaError → BroadcastError
  permission_denied : CaptureSourceKind → BroadcastError

-- A feedback is its target bitrate, the only part that is read.
pub data BroadcastCommand : Type 0 where
  connect_to : String → BroadcastCommand
  start_now stop_now ask_keyframe : BroadcastCommand
  set_target : ℕ → BroadcastCommand
  feed_back : Option ℕ → BroadcastCommand
  ask_permission : CaptureSourceKind → BroadcastCommand
  destroy_now : BroadcastCommand

pub data BroadcastEvent : Type 0 where
  state_changed : BroadcastState → BroadcastState → BroadcastEvent
  packet_published : ℕ → TrackId → BroadcastEvent
  bitrate_changed : ℕ → BroadcastEvent
  permission_changed : CaptureSourceKind → PermissionState → BroadcastEvent
  error_raised : MediaError → BroadcastEvent

pub data Reply : Type 0 where
  done : List BroadcastEvent → Reply
  refused : BroadcastError → Reply

abbrev pub state_code : BroadcastState → ℕ
state_code idle = 0
state_code ready = 1
state_code connecting = 2
state_code starting = 3
state_code broadcasting = 4
state_code stopping = 5
state_code stopped = 6
state_code failed = 7
state_code destroyed = 8

-- Equality of states.
abbrev pub same_state : BroadcastState → BroadcastState → Bool
same_state a b = state_code a == state_code b
