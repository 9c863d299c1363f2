-- ===== src/Broadcast/Engine.antt =====
-- crates/cheetah-media-engine/src/broadcast/engine.rs: the broadcast engine. A handler returns the
-- engine that it leaves with its reply, and `Permissions` are the methods of the permission model.
pub mod Command
pub mod Fit
pub mod Walk
mod Tests
use cheetah_media_engine.Prelude.{
  ℕ, String, Bool, true, false, not, ◌&&◌, ◌||◌, List, [], ◌∷◌, ◌++◌, Option, none, some, ◌==◌,
  if◌then◌else◌,
}
use mathlib.Core.Option.{map}
use cheetah_media_engine.Types.Error.{MediaError, Result, ok, err}
use cheetah_media_engine.Types.Limits.{MediaLimits, default_media_limits, check_resolution}
use cheetah_media_engine.Types.Time.{MediaTime}
use cheetah_media_engine.Types.Track.{StreamEpoch}
use cheetah_media_engine.Engine.Resource.{ResourceLimits, new_limits, check}
use cheetah_media_engine.Prelude.Int.{ℤ}
use cheetah_media_engine.Timeline.Clock.{MediaClock, new_clock, Timed, ok, err, update}
use cheetah_media_engine.Broadcast.Permission.{
  CaptureSourceKind, PermissionState, granted, is_granted, same_permission,
}
use cheetah_media_engine.Broadcast.Pipeline.{
  BroadcastPipeline, BroadcastPacketSummary, Devices, Answered, call, connect, start, stop, tick,
}
use cheetah_media_engine.Broadcast.Engine.Command.{
  BroadcastState, idle, ready, connecting, starting, broadcasting, stopped, failed, destroyed,
  BroadcastError, invalid_state, pipeline_not_set, pipeline_error, permission_denied,
  BroadcastCommand, connect_to, start_now, stop_now, ask_keyframe, set_target, feed_back,
  ask_permission, destroy_now, BroadcastEvent, state_changed, packet_published, bitrate_changed,
  permission_changed, error_raised, Reply, done, refused, same_state,
}

pub record BroadcastEngine (D M : Type 0) : Type 0 where
  pub state : BroadcastState
  pub pipeline : Option (BroadcastPipeline D)
  pub permission_model : M
  pub media_limits : MediaLimits
  pub resource_limits : ResourceLimits
  pub clock : MediaClock
  pub clock_track_is_audio : Option Bool

-- The permission model, over its state.
pub record Permissions (M : Type 0) : Type 0 where
  pub query : M → CaptureSourceKind → PermissionState
  pub request : M → CaptureSourceKind → M × PermissionState

abbrev pub Outcome : Type 0 → Type 0 → Type 0
Outcome D M = BroadcastEngine D M × Reply

abbrev pub new_engine : {D M : Type 0} → M → BroadcastEngine D M
new_engine model = record {
  state = idle;
  pipeline = none;
  permission_model = model;
  media_limits = default_media_limits;
  resource_limits = new_limits;
  clock = new_clock none none;
  clock_track_is_audio = none;
}

abbrev pub with_pipeline : {D M : Type 0} → BroadcastPipeline D → M → BroadcastEngine D M
with_pipeline p model = record (new_engine model) { state = ready; pipeline = some p }

abbrev pub with_permission_model : {D M : Type 0} → BroadcastEngine D M → M → BroadcastEngine D M
with_permission_model e model = record e { permission_model = model }

abbrev pub with_media_limits :
    {D M : Type 0} → BroadcastEngine D M → MediaLimits → BroadcastEngine D M
with_media_limits e limits = record e { media_limits = limits }

abbrev pub with_resource_limits :
    {D M : Type 0} → BroadcastEngine D M → ResourceLimits → BroadcastEngine D M
with_resource_limits e limits = record e { resource_limits = limits }

abbrev pub transition :
    {D M : Type 0}
    → BroadcastState
    → BroadcastEngine D M
    → BroadcastEngine D M × List BroadcastEvent
transition to e =
    if same_state e.state to
    then (e, [])
    else (record e { state = to }, state_changed e.state to ∷ [])

abbrev pub invalid : {D M : Type 0} → String → BroadcastEngine D M → Outcome D M
invalid command e = (e, refused (invalid_state e.state command))

-- The events before, then a change of state.
abbrev pub move :
    {D M : Type 0} → List BroadcastEvent → BroadcastState → BroadcastEngine D M → Outcome D M
move before to e = let r = transition to e in (r.0, done (before ++ r.1))

-- The events before, then two changes of state.
abbrev pub move_through :
    {D M : Type 0}
    → List BroadcastEvent
    → BroadcastState
    → BroadcastState
    → BroadcastEngine D M
    → Outcome D M
move_through before via to e = let r = transition via e in move (before ++ r.1) to r.0

abbrev pub put_pipeline :
    {D M : Type 0} → BroadcastEngine D M → BroadcastPipeline D → BroadcastEngine D M
put_pipeline e p = record e { pipeline = some p }

-- Which stream the clock follows.
abbrev pub follow : Option Bool → Bool → Bool
follow none audio = audio
follow (some b) audio = b

abbrev pub same_bool : Bool → Bool → Bool
same_bool true b = b
same_bool false b = not b

abbrev pub clock_after : MediaClock → Timed (MediaClock × ℤ) → MediaClock
clock_after c (ok r) = r.0
clock_after c (err x) = c

abbrev pub track_time :
    {D M : Type 0}
    → BroadcastEngine D M
    → BroadcastPacketSummary
    → Option MediaTime
    → BroadcastEngine D M
track_time e s none = e
track_time e s (some time) =
    let audio = follow e.clock_track_is_audio s.is_audio in
    record e {
      clock_track_is_audio = some audio;
      clock =
          if same_bool audio s.is_audio
          then clock_after e.clock (update e.clock time s.stream_epoch)
          else e.clock;
    }

abbrev pub bitrate_events : Option ℕ → List BroadcastEvent
bitrate_events none = []
bitrate_events (some bps) = bitrate_changed bps ∷ []

module _ {D M F : Type 0} (dv : Devices D F) (pm : Permissions M) where
  abbrev pub stop_pipeline : BroadcastEngine D M → BroadcastEngine D M
  stop_pipeline e = record e { pipeline = map (stop dv) e.pipeline }

  -- A failure stops the pipeline and raises the error after the change of state.
  abbrev pub fail_with : List BroadcastEvent → MediaError → BroadcastEngine D M → Outcome D M
  fail_with before x e =
      let r = transition failed (stop_pipeline e) in
      (r.0, done (before ++ r.1 ++ error_raised x ∷ []))

  abbrev pub publish_events : Option BroadcastPacketSummary → BroadcastEngine D M → Outcome D M
  publish_events none e = (e, done [])
  publish_events (some s) e = (
    track_time e s s.timestamp,
    done (packet_published s.sequence s.track_id ∷ bitrate_events s.target_bitrate_bps),
  )

  abbrev pub after_tick : Result (Option BroadcastPacketSummary) → BroadcastEngine D M → Outcome D M
  after_tick (ok s) e = publish_events s e
  after_tick (err x) e = fail_with [] x e

  abbrev pub tick_with : Option (BroadcastPipeline D) → BroadcastEngine D M → Outcome D M
  tick_with none e = (e, refused pipeline_not_set)
  tick_with (some p) e = let r = tick dv p in after_tick r.1 (put_pipeline e r.0)

  unfoldable pub tick_engine : BroadcastEngine D M → Outcome D M
  tick_engine e =
      if not (same_state e.state broadcasting) then (e, done []) else tick_with e.pipeline e

  abbrev pub after_connect : Result (Unit {0}) → BroadcastEngine D M → Outcome D M
  after_connect (ok x) e = move_through [] connecting ready e
  after_connect (err x) e = fail_with [] x e

  abbrev pub connect_with :
      String → Option (BroadcastPipeline D) → BroadcastEngine D M → Outcome D M
  connect_with url none e = (e, refused pipeline_not_set)
  connect_with url (some p) e = let r = connect dv p url in after_connect r.1 (put_pipeline e r.0)

  unfoldable pub connect_engine : String → BroadcastEngine D M → Outcome D M
  connect_engine url e =
      if not (same_state e.state ready || same_state e.state stopped)
      then invalid "connect" e
      else connect_with url e.pipeline e

  -- The clock starts afresh with the capture.
  abbrev pub after_start :
      List BroadcastEvent → Result (Unit {0}) → BroadcastEngine D M → Outcome D M
  after_start before (ok x) e =
      move_through before starting broadcasting
        (record e { clock = new_clock none none; clock_track_is_audio = none })
  after_start before (err x) e = fail_with before x e

  abbrev pub start_pipeline :
      List BroadcastEvent → BroadcastPipeline D → BroadcastEngine D M → Outcome D M
  start_pipeline before p e = let r = start dv p in after_start before r.1 (put_pipeline e r.0)

  abbrev pub or_fail :
      List BroadcastEvent
      → Result (Unit {0})
      → (BroadcastEngine D M → Outcome D M)
      → BroadcastEngine D M
      → Outcome D M
  or_fail before (ok x) next e = next e
  or_fail before (err x) next e = fail_with before x e

  abbrev pub start_checked :
      List BroadcastEvent → Option (BroadcastPipeline D) → BroadcastEngine D M → Outcome D M
  start_checked before none e = (e, refused pipeline_not_set)
  start_checked before (some p) e =
      or_fail before (check_resolution e.media_limits p.config.width p.config.height)
        (or_fail before (check e.resource_limits p.resources) (start_pipeline before p)) e

  -- The state of a permission after the engine has asked for it where it is not granted.
  abbrev pub ensure_permission : CaptureSourceKind → M → M × PermissionState
  ensure_permission kind m =
      if is_granted (pm.query m kind) then (m, granted) else pm.request m kind

  abbrev pub permission_events :
      CaptureSourceKind → PermissionState → PermissionState → List BroadcastEvent
  permission_events kind before after =
      if same_permission before after then [] else permission_changed kind after ∷ []

  abbrev pub start_permitted : Option CaptureSourceKind → BroadcastEngine D M → Outcome D M
  start_permitted none e = start_checked [] e.pipeline e
  start_permitted (some kind) e =
      let r = ensure_permission kind e.permission_model in
      let asked = record e { permission_model = r.0 } in
      if is_granted r.1
      then start_checked (permission_events kind (pm.query e.permission_model kind) r.1) e.pipeline
          asked
      else (asked, refused (permission_denied kind))

  abbrev pub required : Option (BroadcastPipeline D) → Option CaptureSourceKind
  required none = none
  required (some p) = dv.required_permission p.devices

  unfoldable pub start_engine : BroadcastEngine D M → Outcome D M
  start_engine e =
      if not (same_state e.state ready)
      then invalid "start" e
      else start_permitted (required e.pipeline) e

  unfoldable pub stop_engine : BroadcastEngine D M → Outcome D M
  stop_engine e =
      if not (
        same_state e.state broadcasting
        || same_state e.state starting
        || same_state e.state ready
        || same_state e.state failed)
      then invalid "stop" e
      else move [] stopped (stop_pipeline e)

  -- A call of the encoder, and the events that follow when it succeeds.
  abbrev pub after_encoder :
      List BroadcastEvent → Result (Unit {0}) → BroadcastEngine D M → Outcome D M
  after_encoder events (ok x) e = (e, done events)
  after_encoder events (err x) e = (e, refused (pipeline_error x))

  abbrev pub encoder_with :
      (D → D × Result (Unit {0}))
      → List BroadcastEvent
      → Option (BroadcastPipeline D)
      → BroadcastEngine D M
      → Outcome D M
  encoder_with f events none e = (e, refused pipeline_not_set)
  encoder_with f events (some p) e =
      let r = call p (f p.devices) in after_encoder events r.1 (put_pipeline e r.0)

  unfoldable pub keyframe_engine : BroadcastEngine D M → Outcome D M
  keyframe_engine e =
      if not (same_state e.state broadcasting)
      then invalid "request_keyframe" e
      else encoder_with dv.request_keyframe [] e.pipeline e

  abbrev pub set_encoder : ℕ → BroadcastEngine D M → Outcome D M
  set_encoder bps e =
      encoder_with (λ d. dv.set_bitrate d bps) (bitrate_changed bps ∷ []) e.pipeline e

  unfoldable pub bitrate_engine : ℕ → BroadcastEngine D M → Outcome D M
  bitrate_engine bps e =
      if not (same_state e.state broadcasting) then invalid "set_bitrate" e else set_encoder bps e

  abbrev pub feedback_with : Option ℕ → BroadcastEngine D M → Outcome D M
  feedback_with none e = (e, done [])
  feedback_with (some bps) e = set_encoder bps e

  unfoldable pub feedback_engine : Option ℕ → BroadcastEngine D M → Outcome D M
  feedback_engine bitrate e =
      if not (same_state e.state broadcasting)
      then invalid "apply_feedback" e
      else feedback_with bitrate e

  unfoldable pub permission_engine : CaptureSourceKind → BroadcastEngine D M → Outcome D M
  permission_engine kind e =
      if same_state e.state destroyed
      then invalid "request_permission" e
      else (let r = pm.request e.permission_model kind in
          (
            record e { permission_model = r.0 },
            done (permission_events kind (pm.query e.permission_model kind) r.1),
          ))

  unfoldable pub destroy_engine : BroadcastEngine D M → Outcome D M
  destroy_engine e =
      if same_state e.state destroyed
      then (e, done [])
      else move [] destroyed (record (stop_pipeline e) { pipeline = none })

  abbrev pub apply_command : BroadcastEngine D M → BroadcastCommand → Outcome D M
  apply_command e (connect_to url) = connect_engine url e
  apply_command e start_now = start_engine e
  apply_command e stop_now = stop_engine e
  apply_command e ask_keyframe = keyframe_engine e
  apply_command e (set_target bps) = bitrate_engine bps e
  apply_command e (feed_back bitrate) = feedback_engine bitrate e
  apply_command e (ask_permission kind) = permission_engine kind e
  apply_command e destroy_now = destroy_engine e
