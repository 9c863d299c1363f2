-- ===== src/Broadcast/Permission.antt =====
-- crates/cheetah-media-engine/src/broadcast/permission.rs: capture kinds and permission states.
use cheetah_media_engine.Prelude.{String, Bool, true, false}

pub data CaptureSourceKind : Type 0 where
  camera microphone screen application custom : CaptureSourceKind

unfoldable pub capture_kind_name : CaptureSourceKind → String
capture_kind_name camera = "camera"
capture_kind_name microphone = "microphone"
capture_kind_name screen = "screen"
capture_kind_name application = "application"
capture_kind_name custom = "custom"

pub data PermissionState : Type 0 where
  unknown prompt granted denied restricted : PermissionState

abbrev pub is_granted : PermissionState → Bool
is_granted granted = true
is_granted unknown = false
is_granted prompt = false
is_granted denied = false
is_granted restricted = false

-- Equality of permission states.
abbrev pub same_permission : PermissionState → PermissionState → Bool
same_permission unknown unknown = true
same_permission prompt prompt = true
same_permission granted granted = true
same_permission denied denied = true
same_permission restricted restricted = true
same_permission a b = false

-- The answer of the host without capture hardware, to a query and to a request.
unfoldable pub host_permission : CaptureSourceKind → PermissionState
host_permission camera = denied
host_permission screen = denied
host_permission application = denied
host_permission microphone = unknown
host_permission custom = unknown
