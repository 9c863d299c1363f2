-- ===== src/Engine/State/Trace.antt =====
-- The state changes that the engine announces are the ones that it makes, one after the other, and
-- each is an edge of a fixed diagram.
use cheetah_media_engine.Prelude.{
  ℕ, ◌≡◌, refl, arith, Bool, true, false, List, [], ◌∷◌, ◌++◌, String, Bool-cases, inl, inr, ◌⊎◌,
  ◌≢◌, sym, subst,
}
use cheetah_media_engine.Engine.State.{
  Engine, ◌>>◌, transition, in_state, reset_ledger, start_new_session, stop_in, on_stop,
  open_session, load_in, on_load, play_in, on_play, pause_in, on_pause, on_destroy, fail, act_on,
  recover_or_fail, eof_in, rebuffer, retryable_in, on_network, maybe_enter_preroll, handle_backend,
  on_backend, dispatch, stale, event_epoch, apply, done, bump_sequence, pair_done, tick, new_engine,
}
use cheetah_media_engine.Engine.State.Command.{
  PlayerState, idle, loading, preroll, playing, paused, rebuffering, stopping, failed, destroyed,
  EngineEvent, state_changed, NetworkEvent, connected, eof, retryable, fatal, BackendEvent, track,
  config_changed, decoder_ready, decoder_error, rendered, backend_stopped, LoadRequest,
  EngineCommand, load, play, pause, stop, destroy, network, backend, get_metrics,
}
use cheetah_media_engine.Engine.State.Stop.{on_stop_completes}
use cheetah_media_engine.Engine.Resource.{ResourceLedger}
use cheetah_media_engine.Engine.Metrics.{Metrics}
use mathlib.Core.Path.{subst₂}

-- The edges of the lifecycle diagram.
abbrev pub legal : PlayerState → PlayerState → Bool
legal destroyed _ = false
legal _ destroyed = true
legal idle loading = true
legal idle rebuffering = true
legal idle failed = true
legal loading preroll = true
legal loading stopping = true
legal loading failed = true
legal preroll playing = true
legal preroll rebuffering = true
legal preroll stopping = true
legal preroll failed = true
legal playing paused = true
legal playing rebuffering = true
legal playing stopping = true
legal playing failed = true
legal paused playing = true
legal paused rebuffering = true
legal paused stopping = true
legal paused failed = true
legal rebuffering idle = true
legal rebuffering preroll = true
legal rebuffering playing = true
legal rebuffering paused = true
legal rebuffering stopping = true
legal rebuffering failed = true
legal stopping idle = true
legal stopping rebuffering = true
legal stopping failed = true
legal failed loading = true
legal failed stopping = true
legal _ _ = false

-- The announced changes lead from `s` to `t` along edges of the diagram.
abbrev pub Follows : PlayerState → List EngineEvent → PlayerState → Type 0
Follows s [] t = s ≡ t
Follows s (state_changed a b ∷ evs) t = (s ≡ a) × (legal a b ≡ true) × Follows b evs t
Follows s (_ ∷ evs) t = Follows s evs t

-- The states that a rebuffering engine may go back to.
abbrev pub resumable : PlayerState → Bool
resumable idle = true
resumable preroll = true
resumable playing = true
resumable paused = true
resumable stopping = true
resumable _ = false

abbrev pub Resumes : Engine → Type 0
Resumes e = resumable e.pre_rebuffer_state ≡ true

abbrev pub Sound : Engine → Engine × List EngineEvent → Type 0
Sound e r = Follows e.state r.1 r.0.state × Resumes r.0

on_play-Sound : (e : Engine) → Resumes e → Sound e (on_play e)
unfolding on_play play_in transition
on_play-Sound e h = ground arith

on_pause-Sound : (e : Engine) → Resumes e → Sound e (on_pause e)
unfolding on_pause pause_in transition
on_pause-Sound e h = ground arith

on_destroy-Sound : (e : Engine) → Resumes e → Sound e (on_destroy e)
unfolding on_destroy reset_ledger transition
on_destroy-Sound e h = ground arith

on_stop-Sound : (e : Engine) → Resumes e → Sound e (on_stop e)
unfolding on_stop stop_in reset_ledger transition
on_stop-Sound e h = ground arith

fail-Sound : (code : ℕ) (stage : String) (e : Engine) → Resumes e → Sound e (fail code stage e)
unfolding fail transition
fail-Sound code stage e h = ground arith

recover_or_fail-Sound :
    (code : ℕ) (stage : String) (e : Engine) → Resumes e → Sound e (recover_or_fail code stage e)
unfolding recover_or_fail act_on fail transition
recover_or_fail-Sound code stage e h = ground arith

on_network-Sound : (ev : NetworkEvent) (e : Engine) → Resumes e → Sound e (on_network ev e)
unfolding on_network eof_in retryable_in rebuffer transition
on_network-Sound connected e h = ground arith
on_network-Sound eof e h = ground arith
on_network-Sound retryable e h = ground arith
on_network-Sound (fatal code) e h = recover_or_fail-Sound code "network" e h

maybe_enter_preroll-Sound : (e : Engine) → Resumes e → Sound e (maybe_enter_preroll e)
unfolding maybe_enter_preroll transition
maybe_enter_preroll-Sound e h = ground arith

handle_backend-Sound : (ev : BackendEvent) (e : Engine) → Resumes e → Sound e (handle_backend ev e)
unfolding handle_backend maybe_enter_preroll transition
handle_backend-Sound (track ep info) e h = ground arith
handle_backend-Sound (config_changed ep t g) e h = ground arith
handle_backend-Sound (decoder_ready ep t) e h = (refl, h)
handle_backend-Sound (decoder_error ep t code) e h = recover_or_fail-Sound code "decoder" e h
handle_backend-Sound (rendered ep t) e h = (refl, h)
handle_backend-Sound backend_stopped e h = ground arith

on_backend-Sound : (ev : BackendEvent) (e : Engine) → Resumes e → Sound e (on_backend ev e)
unfolding on_backend
on_backend-Sound ev e h = elim (Bool-cases (stale (event_epoch ev) e.epoch)) [
  | inl old ↦ rw old (refl, h)
  | inr current ↦ rw current (handle_backend-Sound ev e h)
]

Follows-append :
    (s t u : PlayerState) (xs ys : List EngineEvent)
    → Follows s xs t
    → Follows t ys u
    → Follows s (xs ++ ys) u
Follows-append s t u [] ys h k = subst (λ r. Follows r ys u) (sym h) k
Follows-append s t u (state_changed a b ∷ xs) ys h k = (h.0, h.1, Follows-append b t u xs ys h.2 k)
Follows-append s t u (_ ∷ xs) ys h k = Follows-append s t u xs ys h k

open_session-Sound :
    (live : Bool) (e : Engine)
    → (e.state ≡ idle) ⊎ (e.state ≡ failed)
    → Sound e (open_session live e)
unfolding open_session start_new_session reset_ledger transition
open_session-Sound live e h = ground arith

reopen-Sound :
    (live : Bool) (e : Engine)
    → Resumes e
    → e.state ≢ idle
    → e.state ≢ destroyed
    → Sound e ((do on_stop; open_session live) e)
reopen-Sound live e h p q =
    let (at_idle, _, _) = on_stop_completes e p q in
    let (first, _) = on_stop-Sound e h in
    let (second, after) = open_session-Sound live (on_stop e).0 (inl at_idle) in
    (Follows-append e.state _ _ (on_stop e).1 _ first second, after)

load_in-Sound :
    (s : PlayerState) (live : Bool) (e : Engine)
    → e.state ≡ s
    → Resumes e
    → Sound e (load_in s live e)
unfolding load_in
load_in-Sound idle live e p h = open_session-Sound live e (inl p)
load_in-Sound failed live e p h = open_session-Sound live e (inr p)
load_in-Sound destroyed live e p h = (refl, h)
load_in-Sound _ live e p h = reopen-Sound live e h (λ q. cc) (λ q. cc)

on_load-Sound : (req : LoadRequest) (e : Engine) → Resumes e → Sound e (on_load req e)
unfolding on_load
on_load-Sound req e h = load_in-Sound e.state req.is_live e refl h

dispatch-Sound : (c : EngineCommand) (e : Engine) → Resumes e → Sound e (dispatch c e)
unfolding dispatch
dispatch-Sound (load req) e h = on_load-Sound req e h
dispatch-Sound play e h = on_play-Sound e h
dispatch-Sound pause e h = on_pause-Sound e h
dispatch-Sound stop e h = on_stop-Sound e h
dispatch-Sound destroy e h = on_destroy-Sound e h
dispatch-Sound (network ev) e h = on_network-Sound ev e h
dispatch-Sound (backend ev) e h = on_backend-Sound ev e h
dispatch-Sound get_metrics e h = (refl, h)

-- Whatever the command that is not refused, in an engine whose state to resume after rebuffering is
-- a resumable one, the announced state changes lead from the state before it to the state after it
-- along edges of the diagram, and the state to resume stays resumable.
pub apply-Sound :
    (c : EngineCommand) (e e' : Engine) (evs : List EngineEvent)
    → Resumes e
    → apply c e ≡ done e' evs
    → Follows e.state evs e'.state × Resumes e'
unfolding apply
apply-Sound c e e' evs h q = elim (Bool-cases (in_state destroyed e)) [
  | inl gone ↦ absurd (cc (rw gone at q))
  | inr live ↦
      let r : pair_done (dispatch c (bump_sequence e)) ≡ done e' evs = rw live at q in
      opened (dispatch c (bump_sequence e)) r (dispatch-Sound c (bump_sequence e) h)
]
  where
    opened :
        (r : Engine × List EngineEvent)
        → pair_done r ≡ done e' evs
        → Sound e r
        → Follows e.state evs e'.state × Resumes e'
    opened (a, xs) p t =
        let engines : a ≡ e' = cc in
        let events : xs ≡ evs = cc in subst₂ (λ b ys. Sound e (b, ys)) engines events t

-- A run of an engine: commands, ticks, and what its owner does to the ledger and the metrics, which
-- `ledger_mut` and `metrics_mut` hand out, where any change is possible. A refused command has no
-- effect and no events, and is no step.
pub data Runs : Engine → List EngineEvent → Engine → Type 0 where
  start : (e : Engine) → Runs e [] e
  applied :
      {e f g : Engine} {xs ys : List EngineEvent} (c : EngineCommand)
      → Runs e xs f
      → apply c f ≡ done g ys
      → Runs e (xs ++ ys) g
  ticks : {e f : Engine} {xs : List EngineEvent} (now : ℕ) → Runs e xs f → Runs e xs (tick now f)
  edits_ledger :
      {e f : Engine} {xs : List EngineEvent} (ledger : ResourceLedger)
      → Runs e xs f
      → Runs e xs (record f { ledger = ledger })
  edits_metrics :
      {e f : Engine} {xs : List EngineEvent} (metrics : Metrics)
      → Runs e xs f
      → Runs e xs (record f { metrics = metrics })

Runs-Sound :
    {e f : Engine} {xs : List EngineEvent}
    → Resumes e
    → Runs e xs f
    → Follows e.state xs f.state × Resumes f
unfolding tick
Runs-Sound h (start e) = (refl, h)
Runs-Sound h (applied {e} {f} {g} {xs} {ys} c r q) =
    let (a, b) = Runs-Sound h r in
    let (s, t) = apply-Sound c f g ys b q in (Follows-append e.state f.state g.state xs ys a s, t)
Runs-Sound h (ticks now r) = Runs-Sound h r
Runs-Sound h (edits_ledger ledger r) = Runs-Sound h r
Runs-Sound h (edits_metrics metrics r) = Runs-Sound h r

-- Along any run of a new engine, of accepted commands, ticks and any changes of the ledger and the
-- metrics from outside, the announced state changes are a path of the diagram from idle to the
-- engine's state, and the state to resume after rebuffering is a resumable one.
pub new_engine-Runs :
    {f : Engine} {xs : List EngineEvent}
    → Runs new_engine xs f
    → Follows idle xs f.state × Resumes f
new_engine-Runs r = Runs-Sound refl r
