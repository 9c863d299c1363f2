-- ===== src/Broadcast/Engine/Walk/Handlers.antt =====
-- The handlers that call the pipeline announce the changes of state that they make.
use cheetah_media_engine.Prelude.{
  ℕ, ◌≡◌, refl, if_elim, String, true, ◌||◌, Option, none, some, List, [], arith, Bool-cases, inl,
  inr,
}
use cheetah_media_engine.Types.Error.{Result, ok, err}
use cheetah_media_engine.Types.Limits.{check_resolution}
use cheetah_media_engine.Types.Time.{MediaTime}
use cheetah_media_engine.Engine.Resource.{check}
use cheetah_media_engine.Timeline.Clock.{new_clock}
use cheetah_media_engine.Broadcast.Permission.{
  CaptureSourceKind, PermissionState, is_granted, same_permission,
}
use cheetah_media_engine.Broadcast.Pipeline.{
  BroadcastPipeline, BroadcastPacketSummary, Devices, connect, start, tick,
}
use cheetah_media_engine.Broadcast.Engine.{
  BroadcastEngine, Permissions, Outcome, put_pipeline, bitrate_events, after_tick, tick_with,
  track_time, after_connect, connect_with, after_start, start_pipeline, or_fail, start_checked,
  start_permitted, ensure_permission, permission_events,
}
use cheetah_media_engine.Broadcast.Engine.Command.{
  BroadcastState, ready, connecting, starting, broadcasting, stopped, failed, BroadcastEvent,
  same_state,
}
use cheetah_media_engine.Broadcast.Engine.Fit.{same_state-≡}
use cheetah_media_engine.Broadcast.Engine.Walk.{
  legal, Follows, Announces, legal_from, move_through-Announces, fail_with-Announces,
}

module _ {D M F : Type 0} (dv : Devices D F) (pm : Permissions M) where
  after_connect-Announces :
      (r : Result (Unit {0})) (e : BroadcastEngine D M)
      → legal e.state connecting ≡ true
      → legal e.state failed ≡ true
      → Announces e.state (after_connect dv pm r e)
  after_connect-Announces (ok x) e l m =
      move_through-Announces e.state [] connecting ready e refl l refl
  after_connect-Announces (err x) e l m = fail_with-Announces dv pm e.state [] x e refl m

  pub connect_with-Announces :
      (url : String) (o : Option (BroadcastPipeline D)) (e : BroadcastEngine D M)
      → legal e.state connecting ≡ true
      → legal e.state failed ≡ true
      → Announces e.state (connect_with dv pm url o e)
  connect_with-Announces url none e l m = refl
  connect_with-Announces url (some p) e l m =
      let r = connect dv p url in after_connect-Announces r.1 (put_pipeline e r.0) l m

  pub connectable_legal :
      (s : BroadcastState)
      → (same_state s ready || same_state s stopped) ≡ true
      → (legal s connecting ≡ true) × (legal s failed ≡ true)
  connectable_legal s t = elim (Bool-cases (same_state s ready)) [
    | inl y ↦ (
      legal_from connecting (same_state-≡ s ready y) refl,
      legal_from failed (same_state-≡ s ready y) refl,
    )
    | inr n ↦
        (let p = same_state-≡ s stopped (ground arith) in
          (legal_from connecting p refl, legal_from failed p refl))
  ]

  track_time-state :
      (e : BroadcastEngine D M) (s : BroadcastPacketSummary) (o : Option MediaTime)
      → e.state ≡ (track_time e s o).state
  track_time-state e s none = refl
  track_time-state e s (some t) = refl

  bitrate_events-Follows :
      (b : Option ℕ) (s t : BroadcastState) → s ≡ t → Follows s (bitrate_events b) t
  bitrate_events-Follows none s t p = p
  bitrate_events-Follows (some n) s t p = p

  after_tick-Announces :
      (r : Result (Option BroadcastPacketSummary)) (e : BroadcastEngine D M)
      → e.state ≡ broadcasting
      → Announces e.state (after_tick dv pm r e)
  after_tick-Announces (ok none) e p = refl
  after_tick-Announces (ok (some m)) e p =
      bitrate_events-Follows m.target_bitrate_bps e.state (track_time e m m.timestamp).state
        (track_time-state e m m.timestamp)
  after_tick-Announces (err x) e p =
      fail_with-Announces dv pm e.state [] x e refl (legal_from failed p refl)

  pub tick_with-Announces :
      (o : Option (BroadcastPipeline D)) (e : BroadcastEngine D M)
      → e.state ≡ broadcasting
      → Announces e.state (tick_with dv pm o e)
  tick_with-Announces none e p = refl
  tick_with-Announces (some p) e q =
      let r = tick dv p in after_tick-Announces r.1 (put_pipeline e r.0) q

  after_start-Announces :
      (before : List BroadcastEvent) (r : Result (Unit {0})) (e : BroadcastEngine D M)
      → e.state ≡ ready
      → Follows e.state before e.state
      → Announces e.state (after_start dv pm before r e)
  after_start-Announces before (ok x) e p f =
      move_through-Announces e.state before starting broadcasting
        (record e { clock = new_clock none none; clock_track_is_audio = none }) f
        (legal_from starting p refl) refl
  after_start-Announces before (err x) e p f =
      fail_with-Announces dv pm e.state before x e f (legal_from failed p refl)

  or_fail-Announces :
      (before : List BroadcastEvent) (r : Result (Unit {0}))
      (next : BroadcastEngine D M → Outcome D M) (e : BroadcastEngine D M)
      → e.state ≡ ready
      → Follows e.state before e.state
      → Announces e.state (next e)
      → Announces e.state (or_fail dv pm before r next e)
  or_fail-Announces before (ok x) next e p f n = n
  or_fail-Announces before (err x) next e p f n =
      fail_with-Announces dv pm e.state before x e f (legal_from failed p refl)

  start_checked-Announces :
      (before : List BroadcastEvent) (o : Option (BroadcastPipeline D)) (e : BroadcastEngine D M)
      → e.state ≡ ready
      → Follows e.state before e.state
      → Announces e.state (start_checked dv pm before o e)
  start_checked-Announces before none e p f = refl
  start_checked-Announces before (some q) e p f =
      let r = start dv q in
      or_fail-Announces before (check_resolution e.media_limits q.config.width q.config.height)
        (or_fail dv pm before (check e.resource_limits q.resources) (start_pipeline dv pm before q))
        e p f
        (or_fail-Announces before (check e.resource_limits q.resources)
          (start_pipeline dv pm before q) e p f
          (after_start-Announces before r.1 (put_pipeline e r.0) p f))

  pub permission_events-Follows :
      (kind : CaptureSourceKind) (before after : PermissionState) (s : BroadcastState)
      → Follows s (permission_events dv pm kind before after) s
  permission_events-Follows kind before after s =
      if_elim (λ (evs : List BroadcastEvent). Follows s evs s) (same_permission before after)
        (λ t. refl) (λ t. refl)

  pub start_permitted-Announces :
      (k : Option CaptureSourceKind) (e : BroadcastEngine D M)
      → e.state ≡ ready
      → Announces e.state (start_permitted dv pm k e)
  start_permitted-Announces none e p = start_checked-Announces [] e.pipeline e p refl
  start_permitted-Announces (some kind) e p =
      let r = ensure_permission dv pm kind e.permission_model in
      let before = pm.query e.permission_model kind in
      if_elim (λ (x : Outcome D M). Announces e.state x) (is_granted r.1)
        (λ t.
          start_checked-Announces (permission_events dv pm kind before r.1) e.pipeline
            (record e { permission_model = r.0 }) p
            (permission_events-Follows kind before r.1 e.state))
        (λ t. refl)
