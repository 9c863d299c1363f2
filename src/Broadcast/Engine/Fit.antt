-- ===== src/Broadcast/Engine/Fit.antt =====
-- What the state of a broadcast engine says of its pipeline, and the changes of state that keep it.
pub mod Handlers
pub mod Steps
use cheetah_media_engine.Prelude.{
  ℕ, ◌≡◌, refl, sym, ap, subst, ◌∙◌, if_elim, String, Bool, true, false, not, ◌||◌, Option, none,
  some, List, [], ◌∷◌, ◌++◌, ◌==◌, arith, Bool-cases, if◌then◌else◌,
}
use mathlib.Core.Option.{map}
use cheetah_media_engine.Types.Error.{MediaError, Result, ok, err}
use cheetah_media_engine.Types.Limits.{check_resolution}
use cheetah_media_engine.Timeline.Clock.{new_clock}
use cheetah_media_engine.Types.Time.{MediaTime}
use cheetah_media_engine.Engine.Resource.{check}
use cheetah_media_engine.Broadcast.Permission.{CaptureSourceKind, is_granted}
use cheetah_media_engine.Broadcast.Pipeline.{
  BroadcastPipeline, BroadcastPacketSummary, Devices, Answered, connect, start, stop, tick, call,
}
use cheetah_media_engine.Broadcast.Pipeline.Keeps.{After}
use cheetah_media_engine.Broadcast.Pipeline.Network.{
  IsBalanced, IsHeld, connect-After, start-After, stop-IsHeld, tick-After,
}
use cheetah_media_engine.Broadcast.Engine.{
  BroadcastEngine, Permissions, Outcome, transition, invalid, move, move_through, put_pipeline,
  stop_pipeline, fail_with, after_tick, tick_with, tick_engine, publish_events, track_time,
  after_connect, connect_with, connect_engine, after_start, start_pipeline, or_fail, start_checked,
  start_permitted, ensure_permission, permission_events, start_engine, required, stop_engine,
  encoder_with, after_encoder, set_encoder, feedback_with, keyframe_engine, bitrate_engine,
  feedback_engine, permission_engine, destroy_engine, apply_command,
}
use cheetah_media_engine.Broadcast.Engine.Command.{
  BroadcastState, idle, ready, connecting, starting, broadcasting, stopping, stopped, failed,
  destroyed, BroadcastEvent, bitrate_changed, BroadcastCommand, connect_to, start_now, stop_now,
  ask_keyframe, set_target, feed_back, ask_permission, destroy_now, same_state, state_code,
}

abbrev state_of : ℕ → BroadcastState
state_of n =
    if n == 0
    then idle
    else if n == 1
    then ready
    else if n == 2
    then connecting
    else if n == 3
    then starting
    else if n == 4
    then broadcasting
    else if n == 5
    then stopping
    else if n == 6
    then stopped
    else if n == 7
    then failed
    else destroyed

state_of-state_code : (s : BroadcastState) → state_of (state_code s) ≡ s
state_of-state_code idle = refl
state_of-state_code ready = refl
state_of-state_code connecting = refl
state_of-state_code starting = refl
state_of-state_code broadcasting = refl
state_of-state_code stopping = refl
state_of-state_code stopped = refl
state_of-state_code failed = refl
state_of-state_code destroyed = refl

pub same_state-≡ : (a b : BroadcastState) → same_state a b ≡ true → a ≡ b
same_state-≡ a b e =
    let n : state_code a ≡ state_code b = ground arith in
    sym (state_of-state_code a) ∙ ap state_of n ∙ state_of-state_code b

pub transition-left :
    {D M : Type 0} (to : BroadcastState) (e : BroadcastEngine D M)
    → (transition to e).0 ≡ record e { state = to }
transition-left to e =
    if_elim (λ (r : BroadcastEngine _ _ × List BroadcastEvent). r.0 ≡ record e { state = to })
      (same_state e.state to) (λ t. ap (λ s. record e { state = s }) (same_state-≡ e.state to t))
      (λ f. refl)

-- A pipeline that is not started, with the network as its connection says.
abbrev pub IsIdle : {D : Type 0} → BroadcastPipeline D → Type 0
IsIdle p = (p.started ≡ false) × IsBalanced p

abbrev pub Fits : {D : Type 0} → BroadcastState → Option (BroadcastPipeline D) → Type 0
Fits idle none = Unit {0}
Fits destroyed none = Unit {0}
Fits ready (some p) = IsIdle p
Fits broadcasting (some p) = IsHeld true true p
Fits stopped (some p) = IsHeld false false p
Fits failed (some p) = IsHeld false false p
Fits s o = true ≡ false

abbrev pub IsFit : {D M : Type 0} → BroadcastEngine D M → Type 0
IsFit e = Fits e.state e.pipeline

pub true_ne : true ≡ false → ⊥
true_ne e = absurd (ground arith)

pub move-IsFit :
    {D M : Type 0} (before : List BroadcastEvent) (to : BroadcastState) (e : BroadcastEngine D M)
    → Fits to e.pipeline
    → IsFit (move before to e).0
move-IsFit before to e h = subst (λ x. IsFit x) (sym (transition-left to e)) h

pub move_through-IsFit :
    {D M : Type 0} (before : List BroadcastEvent) (via to : BroadcastState)
    (e : BroadcastEngine D M)
    → Fits to e.pipeline
    → IsFit (move_through before via to e).0
move_through-IsFit before via to e h =
    let r = transition via e in
    move-IsFit (before ++ r.1) to r.0
      (subst (λ x. Fits to x.pipeline) (sym (transition-left via e)) h)

pub idle-Fits :
    {D : Type 0} (s : BroadcastState) (o : Option (BroadcastPipeline D))
    → (same_state s ready || same_state s stopped) ≡ true
    → Fits s o
    → Fits ready o
idle-Fits ready o t h = h
idle-Fits stopped (some p) t h = (h.0, h.2)
idle-Fits stopped none t h = h
idle-Fits idle o t h = absurd (true_ne (sym t))
idle-Fits connecting o t h = absurd (true_ne (sym t))
idle-Fits starting o t h = absurd (true_ne (sym t))
idle-Fits broadcasting o t h = absurd (true_ne (sym t))
idle-Fits stopping o t h = absurd (true_ne (sym t))
idle-Fits failed o t h = absurd (true_ne (sym t))
idle-Fits destroyed o t h = absurd (true_ne (sym t))

pub of_not : {b : Bool} → not b ≡ false → b ≡ true
of_not e = ground arith

pub failed-Fits : {D : Type 0} (o : Option (BroadcastPipeline D)) → Fits stopped o → Fits failed o
failed-Fits none h = h
failed-Fits (some p) h = h

module _ {D M F : Type 0} (dv : Devices D F) (pm : Permissions M) where
  pub halted :
      (o : Option (BroadcastPipeline D)) (s : BroadcastState)
      → (same_state s broadcasting
          || same_state s starting
          || same_state s ready
          || same_state s failed)
        ≡ true
      → Fits s o
      → Fits stopped (map (stop dv) o)
  halted (some p) broadcasting t h = stop-IsHeld dv p h.2
  halted (some p) ready t h = stop-IsHeld dv p h.1
  halted (some p) failed t h = stop-IsHeld dv p h.2
  halted none broadcasting t h = h
  halted none ready t h = h
  halted none failed t h = h
  halted none starting t h = h
  halted (some p) starting t h = absurd (true_ne h)
  halted o idle t h = absurd (true_ne (sym t))
  halted o connecting t h = absurd (true_ne (sym t))
  halted o stopping t h = absurd (true_ne (sym t))
  halted o stopped t h = absurd (true_ne (sym t))
  halted o destroyed t h = absurd (true_ne (sym t))

  pub fail_with-IsFit :
      (before : List BroadcastEvent) (x : MediaError) (e : BroadcastEngine D M)
      (p : BroadcastPipeline D)
      → IsBalanced p
      → IsFit (fail_with dv pm before x (put_pipeline e p)).0
  fail_with-IsFit before x e p i =
      move-IsFit before failed (stop_pipeline dv pm (put_pipeline e p)) (stop-IsHeld dv p i)
