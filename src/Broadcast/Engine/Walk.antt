-- ===== src/Broadcast/Engine/Walk.antt =====
-- The changes of state that the broadcast engine announces are the ones that it makes.
pub mod Handlers
pub mod Commands
use cheetah_media_engine.Prelude.{
  ℕ, ◌≡◌, refl, sym, ap, subst, ◌∙◌, if_elim, String, Bool, true, false, not, ◌||◌, Option, none,
  some, List, [], ◌∷◌, ◌++◌, arith, if◌then◌else◌, Bool-cases, inl, inr,
}
use cheetah_media_engine.Types.Error.{MediaError, Result, ok, err}
use cheetah_media_engine.Types.Limits.{check_resolution}
use cheetah_media_engine.Types.Time.{MediaTime}
use cheetah_media_engine.Engine.Resource.{check}
use cheetah_media_engine.Timeline.Clock.{new_clock}
use cheetah_media_engine.Broadcast.Permission.{
  CaptureSourceKind, PermissionState, is_granted, same_permission,
}
use cheetah_media_engine.Broadcast.Pipeline.{
  BroadcastPipeline, BroadcastPacketSummary, Devices, Answered, connect, start, stop, tick, call,
}
use cheetah_media_engine.Broadcast.Engine.{
  BroadcastEngine, Permissions, Outcome, transition, move, move_through, put_pipeline,
  stop_pipeline, invalid, bitrate_events, fail_with, after_tick, tick_with, tick_engine,
  publish_events, track_time, after_connect, connect_with, connect_engine, after_start,
  start_pipeline, or_fail, start_checked, start_permitted, ensure_permission, permission_events,
  start_engine, required, stop_engine, encoder_with, after_encoder, set_encoder, feedback_with,
  keyframe_engine, bitrate_engine, feedback_engine, permission_engine, destroy_engine,
  apply_command,
}
use cheetah_media_engine.Broadcast.Engine.Command.{
  BroadcastState, idle, ready, connecting, starting, broadcasting, stopping, stopped, failed,
  destroyed, BroadcastEvent, state_changed, packet_published, bitrate_changed, permission_changed,
  error_raised, BroadcastCommand, connect_to, start_now, stop_now, ask_keyframe, set_target,
  feed_back, ask_permission, destroy_now, Reply, done, refused, same_state,
}
use cheetah_media_engine.Broadcast.Engine.Fit.{same_state-≡, transition-left, of_not, true_ne}

-- The edges of the lifecycle.
abbrev pub legal : BroadcastState → BroadcastState → Bool
legal destroyed t = false
legal s destroyed = true
legal ready connecting = true
legal stopped connecting = true
legal connecting ready = true
legal ready starting = true
legal starting broadcasting = true
legal ready failed = true
legal stopped failed = true
legal broadcasting failed = true
legal ready stopped = true
legal starting stopped = true
legal broadcasting stopped = true
legal failed stopped = true
legal s t = false

-- The announced changes lead from `s` to `t` along edges.
abbrev pub Follows : BroadcastState → List BroadcastEvent → BroadcastState → Type 0
Follows s [] t = s ≡ t
Follows s (state_changed a b ∷ evs) t = (s ≡ a) × (legal a b ≡ true) × Follows b evs t
Follows s (packet_published n k ∷ evs) t = Follows s evs t
Follows s (bitrate_changed n ∷ evs) t = Follows s evs t
Follows s (permission_changed k p ∷ evs) t = Follows s evs t
Follows s (error_raised x ∷ evs) t = Follows s evs t

-- An accepted command announces the way from the state `s`, and a refused one leaves it.
abbrev pub Announces : {D M : Type 0} → BroadcastState → Outcome D M → Type 0
Announces s (e, done evs) = Follows s evs e.state
Announces s (e, refused x) = s ≡ e.state

Follows-append :
    (s : BroadcastState) (xs ys : List BroadcastEvent) (t u : BroadcastState)
    → Follows s xs t
    → Follows t ys u
    → Follows s (xs ++ ys) u
Follows-append s [] ys t u f g = subst (λ x. Follows x ys u) (sym f) g
Follows-append s (state_changed a b ∷ xs) ys t u f g = (f.0, f.1, Follows-append b xs ys t u f.2 g)
Follows-append s (packet_published n k ∷ xs) ys t u f g = Follows-append s xs ys t u f g
Follows-append s (bitrate_changed n ∷ xs) ys t u f g = Follows-append s xs ys t u f g
Follows-append s (permission_changed k p ∷ xs) ys t u f g = Follows-append s xs ys t u f g
Follows-append s (error_raised x ∷ xs) ys t u f g = Follows-append s xs ys t u f g

transition-Follows :
    {D M : Type 0} (to : BroadcastState) (e : BroadcastEngine D M)
    → legal e.state to ≡ true
    → Follows e.state (transition to e).1 (transition to e).0.state
transition-Follows to e l =
    if_elim (λ (r : BroadcastEngine _ _ × List BroadcastEvent). Follows e.state r.1 r.0.state)
      (same_state e.state to) (λ t. refl) (λ t. (refl, l, refl))

-- An edge from the state that an engine is known to be in.
pub legal_from :
    {a b : BroadcastState} (to : BroadcastState) → a ≡ b → legal b to ≡ true → legal a to ≡ true
legal_from to p l = ap (λ s. legal s to) p ∙ l

pub move-Announces :
    {D M : Type 0} (s : BroadcastState) (before : List BroadcastEvent) (to : BroadcastState)
    (e : BroadcastEngine D M)
    → Follows s before e.state
    → legal e.state to ≡ true
    → Announces s (move before to e)
move-Announces s before to e f l =
    let r = transition to e in
    Follows-append s before r.1 e.state r.0.state f (transition-Follows to e l)

pub move_through-Announces :
    {D M : Type 0} (s : BroadcastState) (before : List BroadcastEvent) (via to : BroadcastState)
    (e : BroadcastEngine D M)
    → Follows s before e.state
    → legal e.state via ≡ true
    → legal via to ≡ true
    → Announces s (move_through before via to e)
move_through-Announces s before via to e f l m =
    let r = transition via e in
    move-Announces s (before ++ r.1) to r.0
      (Follows-append s before r.1 e.state r.0.state f (transition-Follows via e l))
      (legal_from to (ap (λ x. x.state) (transition-left via e)) m)

module _ {D M F : Type 0} (dv : Devices D F) (pm : Permissions M) where
  pub fail_with-Announces :
      (s : BroadcastState) (before : List BroadcastEvent) (x : MediaError) (e : BroadcastEngine D M)
      → Follows s before e.state
      → legal e.state failed ≡ true
      → Announces s (fail_with dv pm before x e)
  fail_with-Announces s before x e f l =
      let r = transition failed (stop_pipeline dv pm e) in
      let t = r.0.state in
      Follows-append s (before ++ r.1) (error_raised x ∷ []) t t
        (Follows-append s before r.1 e.state t f
          (transition-Follows failed (stop_pipeline dv pm e) l))
        refl
