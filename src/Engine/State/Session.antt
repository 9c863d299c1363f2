-- ===== src/Engine/State/Session.antt =====
-- Sessions: what a load resets, and the epoch that fences off events of earlier sessions.
use cheetah_media_engine.Prelude.{
  ℕ, ◌<◌, ◌≡◌, ◌≢◌, refl, subst, arith, Bool, true, false, [], some, u64_max,
}
use cheetah_media_engine.Types.Track.{TrackId, TrackInfo, StreamEpoch, next_epoch}
use cheetah_media_engine.Engine.Resource
use cheetah_media_engine.Engine.Resource.{new_ledger}
use cheetah_media_engine.Engine.Recovery.{new_tracker}
use cheetah_media_engine.Engine.State.{
  Engine, transition, ledger_zero, reset_ledger, stop_in, on_stop, open_session, start_new_session,
  load_in, on_load, on_backend, handle_backend, maybe_enter_preroll, stale, event_epoch,
}
use cheetah_media_engine.Engine.State.Command.{
  PlayerState, idle, loading, preroll, failed, destroyed, LoadRequest, BackendEvent, track,
  config_changed,
}
use cheetah_media_engine.Engine.State.Stop.{new_ledger_zero}

-- A fresh session of the epoch `ep`.
pub record IsFresh (ep : StreamEpoch) (live : Bool) (e : Engine) : Type 0 where
  pub state : e.state ≡ loading
  pub epoch : e.epoch ≡ ep
  pub no_track : e.has_track ≡ false
  pub no_config : e.has_config ≡ false
  pub no_tracks : e.track_count ≡ 0
  pub no_attempts : e.recovery_tracker ≡ new_tracker
  pub owns_nothing : ledger_zero e ≡ true
  pub liveness : e.is_live ≡ live

open_session-IsFresh :
    (live : Bool) (e : Engine) → IsFresh (next_epoch e.epoch) live (open_session live e).0
unfolding open_session start_new_session reset_ledger transition Resource.reset
open_session-IsFresh live e = ground (arith, new_ledger_zero)

epoch-on_stop : (e : Engine) → (on_stop e).0.epoch ≡ e.epoch
unfolding on_stop stop_in reset_ledger transition
epoch-on_stop e = ground arith

load_in-IsFresh :
    (s : PlayerState) (live : Bool) (e : Engine)
    → s ≢ destroyed
    → IsFresh (next_epoch e.epoch) live (load_in s live e).0
unfolding load_in
load_in-IsFresh idle live e h = open_session-IsFresh live e
load_in-IsFresh failed live e h = open_session-IsFresh live e
load_in-IsFresh destroyed live e h = absurd (h refl)
load_in-IsFresh _ live e h =
    subst (λ ep. IsFresh (next_epoch ep) live (open_session live (on_stop e).0).0) (epoch-on_stop e)
      (open_session-IsFresh live (on_stop e).0)

-- A load, from any state but destroyed, leaves a fresh session of the next epoch: loading, nothing
-- discovered, no recovery attempts, no resources owned.
pub on_load-IsFresh :
    (req : LoadRequest) (e : Engine)
    → e.state ≢ destroyed
    → IsFresh (next_epoch e.epoch) req.is_live (on_load req e).0
unfolding on_load
on_load-IsFresh req e h = load_in-IsFresh e.state req.is_live e h

-- After a load from any state but destroyed, at an epoch below the u64 limit, an event that carries
-- the previous session's epoch changes nothing of the engine and is not announced.
pub old_events_ignored :
    (req : LoadRequest) (e : Engine) (ev : BackendEvent)
    → e.state ≢ destroyed
    → e.epoch < u64_max
    → event_epoch ev ≡ some e.epoch
    → on_backend ev (on_load req e).0 ≡ ((on_load req e).0, [])
unfolding on_backend next_epoch
old_events_ignored req e ev h k p =
    let fresh = on_load-IsFresh req e h in
    let old : stale (event_epoch ev) (on_load req e).0.epoch ≡ true =
      rw (p, fresh.epoch) (ground arith) in
    rw old

-- Whether the track or the configuration comes first, a loading engine that has neither and gets
-- both, of its own epoch, enters preroll with the second and not with the first.
pub preroll_needs_both :
    (e : Engine) (info : TrackInfo) (t : TrackId) (g : ℕ)
    → e.state ≡ loading
    → e.has_track ≡ false
    → e.has_config ≡ false
    → let a = (on_backend (track e.epoch info) e).0 in
      let b = (on_backend (config_changed e.epoch t g) e).0 in
      (a.state ≡ loading)
      × (b.state ≡ loading)
      × ((on_backend (config_changed e.epoch t g) a).0.state ≡ preroll)
      × ((on_backend (track e.epoch info) b).0.state ≡ preroll)
unfolding on_backend handle_backend maybe_enter_preroll transition
preroll_needs_both e info t g p q r = ground arith
