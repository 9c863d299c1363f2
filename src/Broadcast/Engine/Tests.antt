-- ===== src/Broadcast/Engine/Tests.antt =====
-- Tests of the broadcast engine, on devices whose state is the number of frames that are left.
use cheetah_media_engine.Prelude.{
  ℕ, ◌≡◌, refl, false, none, some, List, [], ◌∷◌, ◌-◌, ◌==◌, if◌then◌else◌, arith,
}
use cheetah_media_engine.Types.Error.{ok, err, invalid_input, Result}
use cheetah_media_engine.Types.Format.{h264}
use cheetah_media_engine.Types.Limits.{check_resolution}
use cheetah_media_engine.Engine.Resource.{check, total, acquire}
use cheetah_media_engine.Types.Time.{MediaTime}
use cheetah_media_engine.Types.Packet.{new_packet}
use cheetah_media_engine.Timeline.Clock.{internal_timebase}
use cheetah_media_engine.Broadcast.Permission.{camera, prompt, granted, PermissionState}
use cheetah_media_engine.Broadcast.Pipeline.{PipelineConfig, Devices, new_pipeline, connect, start}
use cheetah_media_engine.Broadcast.Engine.{
  Permissions, BroadcastEngine, with_pipeline, apply_command, connect_engine, start_engine,
}
use cheetah_media_engine.Broadcast.Engine.Command.{broadcasting, ready, connect_to, start_now}
use cheetah_media_engine.Broadcast.Engine.Fit.{IsFit}
use cheetah_media_engine.Broadcast.Engine.Fit.Steps.{
  BroadcastStep, command, frame, run_steps, run_steps-IsFit,
}
use cheetah_media_engine.Broadcast.Engine.Walk.{Announces}
use cheetah_media_engine.Broadcast.Engine.Walk.Commands.{apply_command-Announces}

abbrev fine : ℕ → ℕ × Result (Unit {0})
fine n = (n, ok tt)

abbrev untimed : MediaTime
untimed = record { pts = none; dts = none; duration = none; timebase = internal_timebase }

-- One frame is taken from the source in each tick, and it ends the connection when none is left.
abbrev camera_devices : Devices ℕ ℕ
camera_devices = record {
  source_start = fine;
  source_stop = fine;
  source_poll = λ n. if n == 0 then (n, err (invalid_input 1 none)) else (n - 1, ok (some n));
  required_permission = λ n. some camera;
  processors = (λ n f. (n, ok f)) ∷ [];
  is_audio_frame = λ f. false;
  configure = λ n c w h r. fine n;
  encode = λ n f track epoch seq. (n, ok (new_packet (f ∷ []) track epoch seq untimed));
  request_keyframe = fine;
  set_bitrate = λ n b. fine n;
  publisher_connect = λ n url. fine n;
  publish = λ n p. fine n;
  flush = fine;
  poll_feedback = λ n. (n, none);
  disconnect = λ n. n;
}

-- The user is asked once and agrees.
abbrev asking : Permissions PermissionState
asking = record { query = λ m k. m; request = λ m k. (granted, granted) }

abbrev camera_config : PipelineConfig
camera_config = record {
  track_id = 1;
  stream_epoch = 0;
  codec = h264;
  width = 64;
  height = 64;
  fps = 30;
}

abbrev camera_engine : BroadcastEngine ℕ PermissionState
camera_engine = with_pipeline (new_pipeline 1 camera_config) prompt

abbrev show_steps : List BroadcastStep
show_steps = command (connect_to "webrtc://x") ∷ command start_now ∷ frame ∷ frame ∷ []

run_steps-IsFit_example : IsFit (run_steps camera_devices asking camera_engine show_steps)
run_steps-IsFit_example =
    run_steps-IsFit camera_devices asking camera_engine show_steps (refl, (refl, omega arith))

show_state :
    (run_steps camera_devices asking camera_engine
      (command (connect_to "webrtc://x") ∷ command start_now ∷ [])).state
    ≡ broadcasting
unfolding connect_engine start_engine connect start check_resolution check total acquire
show_state = refl

abbrev connected_engine : BroadcastEngine ℕ PermissionState
connected_engine = (apply_command camera_devices asking camera_engine (connect_to "webrtc://x")).0

apply_command-Announces_example :
    Announces ready (apply_command camera_devices asking connected_engine start_now)
unfolding connect_engine connect
apply_command-Announces_example =
    apply_command-Announces camera_devices asking connected_engine start_now
