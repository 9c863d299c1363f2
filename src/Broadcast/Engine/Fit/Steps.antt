-- ===== src/Broadcast/Engine/Fit/Steps.antt =====
-- Every command of the broadcast engine, and every run of it, keeps the state and the pipeline in step.
use cheetah_media_engine.Prelude.{
  ℕ, ◌≡◌, sym, subst, if_elim, String, not, ◌||◌, Option, none, some, List, [], ◌∷◌, if◌then◌else◌,
}
use cheetah_media_engine.Types.Error.{Result, ok, err}
use cheetah_media_engine.Broadcast.Permission.{CaptureSourceKind}
use cheetah_media_engine.Broadcast.Pipeline.{BroadcastPipeline, Devices, call}
use cheetah_media_engine.Broadcast.Engine.{
  BroadcastEngine, Permissions, Outcome, invalid, put_pipeline, stop_pipeline, tick_engine,
  stop_engine, encoder_with, after_encoder, set_encoder, feedback_with, keyframe_engine,
  bitrate_engine, feedback_engine, permission_engine, destroy_engine, apply_command,
}
use cheetah_media_engine.Broadcast.Engine.Command.{
  ready, starting, broadcasting, stopped, failed, destroyed, BroadcastEvent, bitrate_changed,
  BroadcastCommand, connect_to, start_now, stop_now, ask_keyframe, set_target, feed_back,
  ask_permission, destroy_now, same_state,
}
use cheetah_media_engine.Broadcast.Engine.Fit.{
  true_ne, of_not, same_state-≡, Fits, IsFit, move-IsFit, halted,
}
use cheetah_media_engine.Broadcast.Engine.Fit.Handlers.{
  connect_engine-IsFit, tick_engine-IsFit, start_engine-IsFit,
}

module _ {D M F : Type 0} (dv : Devices D F) (pm : Permissions M) where
  stop_engine-IsFit : (e : BroadcastEngine D M) → IsFit e → IsFit (stop_engine dv pm e).0
  unfolding stop_engine
  stop_engine-IsFit e h =
      if_elim (λ (r : Outcome D M). IsFit r.0)
        (not (
          same_state e.state broadcasting
          || same_state e.state starting
          || same_state e.state ready
          || same_state e.state failed))
        (λ t. h)
        (λ t.
          move-IsFit [] stopped (stop_pipeline dv pm e)
            (halted dv pm e.pipeline e.state (of_not t) h))

  after_encoder-IsFit :
      (events : List BroadcastEvent) (r : Result (Unit {0})) (e : BroadcastEngine D M)
      → IsFit e
      → IsFit (after_encoder dv pm events r e).0
  after_encoder-IsFit events (ok x) e h = h
  after_encoder-IsFit events (err x) e h = h

  encoder_with-IsFit :
      (f : D → D × Result (Unit {0})) (events : List BroadcastEvent)
      (o : Option (BroadcastPipeline D)) (e : BroadcastEngine D M)
      → e.state ≡ broadcasting
      → Fits broadcasting o
      → IsFit (encoder_with dv pm f events o e).0
  encoder_with-IsFit f events none e s h = absurd (true_ne h)
  encoder_with-IsFit f events (some p) e s h =
      let r = call p (f p.devices) in
      after_encoder-IsFit events r.1 (put_pipeline e r.0) (subst (λ u. Fits u (some r.0)) (sym s) h)

  -- A handler of the broadcasting state alone.
  while_broadcasting-IsFit :
      (command : String) (e : BroadcastEngine D M) (next : Outcome D M)
      → IsFit e
      → (e.state ≡ broadcasting → Fits broadcasting e.pipeline → IsFit next.0)
      → IsFit (if not (same_state e.state broadcasting) then invalid command e else next).0
  while_broadcasting-IsFit command e next h k =
      if_elim (λ (r : Outcome D M). IsFit r.0) (not (same_state e.state broadcasting)) (λ t. h)
        (λ t.
          let s = same_state-≡ e.state broadcasting (of_not t) in
          k s (subst (λ u. Fits u e.pipeline) s h))

  set_encoder-IsFit :
      (bps : ℕ) (e : BroadcastEngine D M)
      → e.state ≡ broadcasting
      → Fits broadcasting e.pipeline
      → IsFit (set_encoder dv pm bps e).0
  set_encoder-IsFit bps e s h =
      encoder_with-IsFit (λ d. dv.set_bitrate d bps) (bitrate_changed bps ∷ []) e.pipeline e s h

  feedback_with-IsFit :
      (bitrate : Option ℕ) (e : BroadcastEngine D M)
      → e.state ≡ broadcasting
      → Fits broadcasting e.pipeline
      → IsFit (feedback_with dv pm bitrate e).0
  feedback_with-IsFit none e s h = subst (λ u. Fits u e.pipeline) (sym s) h
  feedback_with-IsFit (some bps) e s h = set_encoder-IsFit bps e s h

  destroy_engine-IsFit : (e : BroadcastEngine D M) → IsFit e → IsFit (destroy_engine dv pm e).0
  unfolding destroy_engine
  destroy_engine-IsFit e h =
      if_elim (λ (r : Outcome D M). IsFit r.0) (same_state e.state destroyed) (λ t. h)
        (λ t. move-IsFit [] destroyed (record (stop_pipeline dv pm e) { pipeline = none }) tt)

  permission_engine-IsFit :
      (kind : CaptureSourceKind) (e : BroadcastEngine D M)
      → IsFit e
      → IsFit (permission_engine dv pm kind e).0
  unfolding permission_engine
  permission_engine-IsFit kind e h =
      if_elim (λ (r : Outcome D M). IsFit r.0) (same_state e.state destroyed) (λ t. h) (λ t. h)

  apply_command-IsFit :
      (e : BroadcastEngine D M) (c : BroadcastCommand) → IsFit e → IsFit (apply_command dv pm e c).0
  unfolding keyframe_engine bitrate_engine feedback_engine
  apply_command-IsFit e (connect_to url) h = connect_engine-IsFit dv pm url e h
  apply_command-IsFit e start_now h = start_engine-IsFit dv pm e h
  apply_command-IsFit e stop_now h = stop_engine-IsFit e h
  apply_command-IsFit e ask_keyframe h =
      while_broadcasting-IsFit "request_keyframe" e
        (encoder_with dv pm dv.request_keyframe [] e.pipeline e) h
        (encoder_with-IsFit dv.request_keyframe [] e.pipeline e)
  apply_command-IsFit e (set_target bps) h =
      while_broadcasting-IsFit "set_bitrate" e (set_encoder dv pm bps e) h (set_encoder-IsFit bps e)
  apply_command-IsFit e (feed_back bitrate) h =
      while_broadcasting-IsFit "apply_feedback" e (feedback_with dv pm bitrate e) h
        (feedback_with-IsFit bitrate e)
  apply_command-IsFit e (ask_permission kind) h = permission_engine-IsFit kind e h
  apply_command-IsFit e destroy_now h = destroy_engine-IsFit e h

-- The commands of the caller, and a frame of the pipeline.
pub data BroadcastStep : Type 0 where
  command : BroadcastCommand → BroadcastStep
  frame : BroadcastStep

abbrev pub run_step :
    {D M F : Type 0}
    → Devices D F
    → Permissions M
    → BroadcastEngine D M
    → BroadcastStep
    → BroadcastEngine D M
run_step dv pm e (command c) = (apply_command dv pm e c).0
run_step dv pm e frame = (tick_engine dv pm e).0

abbrev pub run_steps :
    {D M F : Type 0}
    → Devices D F
    → Permissions M
    → BroadcastEngine D M
    → List BroadcastStep
    → BroadcastEngine D M
run_steps dv pm e [] = e
run_steps dv pm e (s ∷ ss) = run_steps dv pm (run_step dv pm e s) ss

module _ {D M F : Type 0} (dv : Devices D F) (pm : Permissions M) where
  run_step-IsFit :
      (e : BroadcastEngine D M) (s : BroadcastStep) → IsFit e → IsFit (run_step dv pm e s)
  run_step-IsFit e (command c) h = apply_command-IsFit dv pm e c h
  run_step-IsFit e frame h = tick_engine-IsFit dv pm e h

  -- After any commands and ticks, whatever the devices and the permission model answer, the state
  -- of a broadcast engine says what its pipeline does. A broadcasting engine has a pipeline that is
  -- started and connected; a stopped or failed one a pipeline that is neither; a ready one a pipeline
  -- that is not started, and is connected or not; an idle or destroyed one has none. The engine rests
  -- in no other state. In each state a pipeline owns the network once while it is connected, and not
  -- at all otherwise. Before the steps the engine is required to be so.
  pub run_steps-IsFit :
      (e : BroadcastEngine D M) (ss : List BroadcastStep) → IsFit e → IsFit (run_steps dv pm e ss)
  run_steps-IsFit e [] h = h
  run_steps-IsFit e (s ∷ ss) h = run_steps-IsFit (run_step dv pm e s) ss (run_step-IsFit e s h)
