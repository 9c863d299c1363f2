-- ===== src/Broadcast/Engine/Fit/Handlers.antt =====
-- Every handler of the broadcast engine keeps its state and its pipeline in step.
use cheetah_media_engine.Prelude.{
  ◌≡◌, refl, sym, subst, if_elim, String, true, false, not, ◌||◌, Option, none, some, List, [],
}
use mathlib.Core.Option.{map}
use cheetah_media_engine.Types.Error.{Result, ok, err}
use cheetah_media_engine.Types.Limits.{check_resolution}
use cheetah_media_engine.Timeline.Clock.{new_clock}
use cheetah_media_engine.Types.Time.{MediaTime}
use cheetah_media_engine.Engine.Resource.{check}
use cheetah_media_engine.Broadcast.Permission.{CaptureSourceKind, is_granted}
use cheetah_media_engine.Broadcast.Pipeline.{
  BroadcastPipeline, BroadcastPacketSummary, Devices, Answered, connect, start, stop, tick,
}
use cheetah_media_engine.Broadcast.Pipeline.Keeps.{After}
use cheetah_media_engine.Broadcast.Pipeline.Network.{
  IsBalanced, IsHeld, connect-After, start-After, tick-After,
}
use cheetah_media_engine.Broadcast.Engine.{
  BroadcastEngine, Permissions, Outcome, put_pipeline, stop_pipeline, after_tick, tick_with,
  tick_engine, track_time, after_connect, connect_with, connect_engine, after_start, start_pipeline,
  or_fail, start_checked, start_permitted, ensure_permission, permission_events, start_engine,
  required,
}
use cheetah_media_engine.Broadcast.Engine.Command.{
  ready, connecting, starting, broadcasting, stopped, failed, BroadcastEvent, same_state,
}
use cheetah_media_engine.Broadcast.Engine.Fit.{
  true_ne, of_not, same_state-≡, IsIdle, Fits, IsFit, move-IsFit, move_through-IsFit, idle-Fits,
  halted, fail_with-IsFit, failed-Fits,
}

module _ {D M F : Type 0} (dv : Devices D F) (pm : Permissions M) where
  after_connect-IsFit :
      (r : Answered D (Unit {0})) (e : BroadcastEngine D M)
      → After (IsHeld false true) IsIdle r
      → IsFit (after_connect dv pm r.1 (put_pipeline e r.0)).0
  after_connect-IsFit (p, ok x) e i =
      move_through-IsFit [] connecting ready (put_pipeline e p) (i.0, i.2)
  after_connect-IsFit (p, err x) e i = fail_with-IsFit dv pm [] x e p i.1

  connect_with-IsFit :
      (url : String) (o : Option (BroadcastPipeline D)) (e : BroadcastEngine D M)
      → Fits ready o
      → IsFit (connect_with dv pm url o e).0
  connect_with-IsFit url none e h = absurd (true_ne h)
  connect_with-IsFit url (some p) e h =
      after_connect-IsFit (connect dv p url) e (connect-After dv false p url h)

  pub connect_engine-IsFit :
      (url : String) (e : BroadcastEngine D M) → IsFit e → IsFit (connect_engine dv pm url e).0
  unfolding connect_engine
  connect_engine-IsFit url e h =
      if_elim (λ (r : Outcome D M). IsFit r.0)
        (not (same_state e.state ready || same_state e.state stopped)) (λ t. h)
        (λ t. connect_with-IsFit url e.pipeline e (idle-Fits e.state e.pipeline (of_not t) h))

  track_time-IsFit :
      (e : BroadcastEngine D M) (s : BroadcastPacketSummary) (o : Option MediaTime)
      → IsFit e
      → IsFit (track_time e s o)
  track_time-IsFit e s none h = h
  track_time-IsFit e s (some time) h = h

  after_tick-IsFit :
      (r : Answered D (Option BroadcastPacketSummary)) (e : BroadcastEngine D M)
      → e.state ≡ broadcasting
      → After (IsHeld true true) (IsHeld true true) r
      → IsFit (after_tick dv pm r.1 (put_pipeline e r.0)).0
  after_tick-IsFit (p, ok none) e s i = subst (λ t. Fits t (some p)) (sym s) i
  after_tick-IsFit (p, ok (some m)) e s i =
      track_time-IsFit (put_pipeline e p) m m.timestamp (subst (λ t. Fits t (some p)) (sym s) i)
  after_tick-IsFit (p, err x) e s i = fail_with-IsFit dv pm [] x e p i.2

  tick_with-IsFit :
      (o : Option (BroadcastPipeline D)) (e : BroadcastEngine D M)
      → e.state ≡ broadcasting
      → Fits broadcasting o
      → IsFit (tick_with dv pm o e).0
  tick_with-IsFit none e s h = absurd (true_ne h)
  tick_with-IsFit (some p) e s h = after_tick-IsFit (tick dv p) e s (tick-After dv p h)

  pub tick_engine-IsFit : (e : BroadcastEngine D M) → IsFit e → IsFit (tick_engine dv pm e).0
  unfolding tick_engine
  tick_engine-IsFit e h =
      if_elim (λ (r : Outcome D M). IsFit r.0) (not (same_state e.state broadcasting)) (λ t. h)
        (λ t.
          let s = same_state-≡ e.state broadcasting (of_not t) in
          tick_with-IsFit e.pipeline e s (subst (λ u. Fits u e.pipeline) s h))

  after_start-IsFit :
      (before : List BroadcastEvent) (r : Answered D (Unit {0})) (e : BroadcastEngine D M)
      → After (IsHeld true true) IsBalanced r
      → IsFit (after_start dv pm before r.1 (put_pipeline e r.0)).0
  after_start-IsFit before (p, ok x) e i =
      move_through-IsFit before starting broadcasting
        (record (put_pipeline e p) { clock = new_clock none none; clock_track_is_audio = none }) i
  after_start-IsFit before (p, err x) e i = fail_with-IsFit dv pm before x e p i

  -- A check that refuses fails the engine, whose pipeline is balanced.
  or_fail-IsFit :
      (before : List BroadcastEvent) (r : Result (Unit {0}))
      (next : BroadcastEngine D M → Outcome D M) (e : BroadcastEngine D M)
      → Fits stopped (map (stop dv) e.pipeline)
      → IsFit (next e).0
      → IsFit (or_fail dv pm before r next e).0
  or_fail-IsFit before (ok x) next e h n = n
  or_fail-IsFit before (err x) next e h n =
      move-IsFit before failed (stop_pipeline dv pm e) (failed-Fits (map (stop dv) e.pipeline) h)

  start_checked-IsFit :
      (before : List BroadcastEvent) (o : Option (BroadcastPipeline D)) (e : BroadcastEngine D M)
      → Fits ready o
      → Fits stopped (map (stop dv) e.pipeline)
      → IsFit (start_checked dv pm before o e).0
  start_checked-IsFit before none e h k = absurd (true_ne h)
  start_checked-IsFit before (some p) e h k =
      or_fail-IsFit before (check_resolution e.media_limits p.config.width p.config.height)
        (or_fail dv pm before (check e.resource_limits p.resources) (start_pipeline dv pm before p))
        e k
        (or_fail-IsFit before (check e.resource_limits p.resources) (start_pipeline dv pm before p)
          e k (after_start-IsFit before (start dv p) e (start-After dv p h.1)))

  start_permitted-IsFit :
      (k : Option CaptureSourceKind) (e : BroadcastEngine D M)
      → e.state ≡ ready
      → Fits ready e.pipeline
      → Fits stopped (map (stop dv) e.pipeline)
      → IsFit (start_permitted dv pm k e).0
  start_permitted-IsFit none e s h k = start_checked-IsFit [] e.pipeline e h k
  start_permitted-IsFit (some kind) e s h k =
      let r = ensure_permission dv pm kind e.permission_model in
      if_elim (λ (r : Outcome D M). IsFit r.0) (is_granted r.1)
        (λ t.
          start_checked-IsFit (permission_events dv pm kind (pm.query e.permission_model kind) r.1)
            e.pipeline (record e { permission_model = r.0 }) h k)
        (λ t. subst (λ u. Fits u e.pipeline) (sym s) h)

  pub start_engine-IsFit : (e : BroadcastEngine D M) → IsFit e → IsFit (start_engine dv pm e).0
  unfolding start_engine
  start_engine-IsFit e h =
      if_elim (λ (r : Outcome D M). IsFit r.0) (not (same_state e.state ready)) (λ t. h)
        (λ t.
          let s = same_state-≡ e.state ready (of_not t) in
          let f = subst (λ u. Fits u e.pipeline) s h in
          start_permitted-IsFit (required dv pm e.pipeline) e s f
            (halted dv pm e.pipeline ready refl f))
