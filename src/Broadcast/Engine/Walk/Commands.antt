-- ===== src/Broadcast/Engine/Walk/Commands.antt =====
-- Every command of the broadcast engine announces the changes of state that it makes.
use cheetah_media_engine.Prelude.{
  ℕ, ◌≡◌, refl, sym, if_elim, String, Bool, true, false, not, ◌||◌, Option, none, some, List, [],
  ◌∷◌, if◌then◌else◌,
}
use cheetah_media_engine.Types.Error.{Result, ok, err}
use cheetah_media_engine.Broadcast.Pipeline.{BroadcastPipeline, Devices, call}
use cheetah_media_engine.Broadcast.Engine.{
  BroadcastEngine, Permissions, Outcome, move, put_pipeline, stop_pipeline, invalid, tick_engine,
  connect_with, connect_engine, start_permitted, permission_events, start_engine, required,
  stop_engine, encoder_with, after_encoder, set_encoder, feedback_with, keyframe_engine,
  bitrate_engine, feedback_engine, permission_engine, destroy_engine, apply_command,
}
use cheetah_media_engine.Broadcast.Engine.Command.{
  BroadcastState, idle, ready, connecting, starting, broadcasting, stopping, stopped, failed,
  destroyed, BroadcastEvent, bitrate_changed, BroadcastCommand, connect_to, start_now, stop_now,
  ask_keyframe, set_target, feed_back, ask_permission, destroy_now, done, same_state,
}
use cheetah_media_engine.Broadcast.Engine.Fit.{same_state-≡, of_not, true_ne}
use cheetah_media_engine.Broadcast.Engine.Walk.{legal, Follows, Announces, move-Announces}
use cheetah_media_engine.Broadcast.Engine.Walk.Handlers.{
  connect_with-Announces, connectable_legal, tick_with-Announces, permission_events-Follows,
  start_permitted-Announces,
}

module _ {D M F : Type 0} (dv : Devices D F) (pm : Permissions M) where
  stoppable_legal :
      (s : BroadcastState)
      → (same_state s broadcasting
          || same_state s starting
          || same_state s ready
          || same_state s failed)
        ≡ true
      → legal s stopped ≡ true
  stoppable_legal broadcasting t = refl
  stoppable_legal starting t = refl
  stoppable_legal ready t = refl
  stoppable_legal failed t = refl
  stoppable_legal idle t = absurd (true_ne (sym t))
  stoppable_legal connecting t = absurd (true_ne (sym t))
  stoppable_legal stopping t = absurd (true_ne (sym t))
  stoppable_legal stopped t = absurd (true_ne (sym t))
  stoppable_legal destroyed t = absurd (true_ne (sym t))

  destroyable_legal :
      (s : BroadcastState) → same_state s destroyed ≡ false → legal s destroyed ≡ true
  destroyable_legal broadcasting t = refl
  destroyable_legal starting t = refl
  destroyable_legal ready t = refl
  destroyable_legal failed t = refl
  destroyable_legal idle t = refl
  destroyable_legal connecting t = refl
  destroyable_legal stopping t = refl
  destroyable_legal stopped t = refl
  destroyable_legal destroyed t = absurd (true_ne t)

  after_encoder-Announces :
      (events : List BroadcastEvent) (r : Result (Unit {0})) (e : BroadcastEngine D M)
      → Follows e.state events e.state
      → Announces e.state (after_encoder dv pm events r e)
  after_encoder-Announces events (ok x) e g = g
  after_encoder-Announces events (err x) e g = refl

  encoder_with-Announces :
      (f : D → D × Result (Unit {0})) (events : List BroadcastEvent)
      (o : Option (BroadcastPipeline D)) (e : BroadcastEngine D M)
      → Follows e.state events e.state
      → Announces e.state (encoder_with dv pm f events o e)
  encoder_with-Announces f events none e g = refl
  encoder_with-Announces f events (some p) e g =
      let r = call p (f p.devices) in after_encoder-Announces events r.1 (put_pipeline e r.0) g

  feedback_with-Announces :
      (b : Option ℕ) (e : BroadcastEngine D M) → Announces e.state (feedback_with dv pm b e)
  feedback_with-Announces none e = refl
  feedback_with-Announces (some n) e =
      encoder_with-Announces (λ d. dv.set_bitrate d n) (bitrate_changed n ∷ []) e.pipeline e refl

  -- A handler that refuses, or runs under its guard.
  guarded-Announces :
      (b : Bool) (command : String) (e : BroadcastEngine D M) (next : Outcome D M)
      → (b ≡ false → Announces e.state next)
      → Announces e.state (if b then invalid command e else next)
  guarded-Announces b command e next k =
      if_elim (λ (x : Outcome D M). Announces e.state x) b (λ t. refl) k

  -- Every accepted command announces the way from the state before it to the state after it: each
  -- change of state that the engine makes is announced once, in order, and is an edge of the
  -- lifecycle, whatever the devices and the permission model answer. From destroyed no edge leads
  -- away. A refused command leaves the state.
  pub apply_command-Announces :
      (e : BroadcastEngine D M) (c : BroadcastCommand) → Announces e.state (apply_command dv pm e c)
  unfolding connect_engine start_engine stop_engine keyframe_engine bitrate_engine feedback_engine
      permission_engine destroy_engine
  apply_command-Announces e (connect_to url) =
      guarded-Announces (not (same_state e.state ready || same_state e.state stopped)) "connect" e
        (connect_with dv pm url e.pipeline e)
        (λ t.
          let l = connectable_legal dv pm e.state (of_not t) in
          connect_with-Announces dv pm url e.pipeline e l.0 l.1)
  apply_command-Announces e start_now =
      guarded-Announces (not (same_state e.state ready)) "start" e
        (start_permitted dv pm (required dv pm e.pipeline) e)
        (λ t.
          start_permitted-Announces dv pm (required dv pm e.pipeline) e
            (same_state-≡ e.state ready (of_not t)))
  apply_command-Announces e stop_now =
      guarded-Announces
        (not (
          same_state e.state broadcasting
          || same_state e.state starting
          || same_state e.state ready
          || same_state e.state failed))
        "stop" e (move [] stopped (stop_pipeline dv pm e))
        (λ t.
          move-Announces e.state [] stopped (stop_pipeline dv pm e) refl
            (stoppable_legal e.state (of_not t)))
  apply_command-Announces e ask_keyframe =
      guarded-Announces (not (same_state e.state broadcasting)) "request_keyframe" e
        (encoder_with dv pm dv.request_keyframe [] e.pipeline e)
        (λ t. encoder_with-Announces dv.request_keyframe [] e.pipeline e refl)
  apply_command-Announces e (set_target n) =
      guarded-Announces (not (same_state e.state broadcasting)) "set_bitrate" e
        (set_encoder dv pm n e)
        (λ t.
          encoder_with-Announces (λ d. dv.set_bitrate d n) (bitrate_changed n ∷ []) e.pipeline e
            refl)
  apply_command-Announces e (feed_back b) =
      guarded-Announces (not (same_state e.state broadcasting)) "apply_feedback" e
        (feedback_with dv pm b e) (λ t. feedback_with-Announces b e)
  apply_command-Announces e (ask_permission kind) =
      let r = pm.request e.permission_model kind in
      let before = pm.query e.permission_model kind in
      guarded-Announces (same_state e.state destroyed) "request_permission" e
        (record e { permission_model = r.0 }, done (permission_events dv pm kind before r.1))
        (λ t. permission_events-Follows dv pm kind before r.1 e.state)
  apply_command-Announces e destroy_now =
      if_elim (λ (x : Outcome D M). Announces e.state x) (same_state e.state destroyed) (λ t. refl)
        (λ t.
          move-Announces e.state [] destroyed (record (stop_pipeline dv pm e) { pipeline = none })
            refl (destroyable_legal e.state t))

  pub tick_engine-Announces : (e : BroadcastEngine D M) → Announces e.state (tick_engine dv pm e)
  unfolding tick_engine
  tick_engine-Announces e =
      if_elim (λ (x : Outcome D M). Announces e.state x) (not (same_state e.state broadcasting))
        (λ t. refl)
        (λ t. tick_with-Announces dv pm e.pipeline e (same_state-≡ e.state broadcasting (of_not t)))
