-- ===== src/Broadcast/Pipeline/Keeps.antt =====
-- What holds of a pipeline after a chain of calls to its devices, and what a tick leaves alone.
use cheetah_media_engine.Prelude.{ℕ, if_elim, Bool, not, List, [], ◌∷◌, Option, none, some}
use cheetah_media_engine.Types.Error.{Result, ok, err}
use cheetah_media_engine.Types.Packet.{MediaPacket}
use cheetah_media_engine.Engine.Resource.{ResourceLedger}
use cheetah_media_engine.Broadcast.Pipeline.{
  BroadcastPipeline, BroadcastPacketSummary, Devices, Answered, ◌>>=◌, call, tick, process_all,
  send_frame, pass_frame, poll_bitrate, apply_bitrate, finish,
}

-- `G` holds of the pipeline after a success, and `W` after an error.
abbrev pub After :
    {D A : Type 0}
    → (BroadcastPipeline D → Type 0)
    → (BroadcastPipeline D → Type 0)
    → Answered D A
    → Type 0
After G W (p, ok a) = G p
After G W (p, err e) = W p

pub bind-After :
    {D A B : Type 0} (H G W : BroadcastPipeline D → Type 0) (r : Answered D A)
    (f : A → BroadcastPipeline D → Answered D B)
    → After H W r
    → ((a : A) (p : BroadcastPipeline D) → H p → After G W (f a p))
    → After G W (r >>= f)
bind-After H G W (p, ok a) f i k = k a p i
bind-After H G W (p, err e) f i k = i

-- What follows from both holds of the pipeline that is left.
pub After-left :
    {D A : Type 0} (G W P : BroadcastPipeline D → Type 0) (r : Answered D A)
    → After G W r
    → ((p : BroadcastPipeline D) → G p → P p)
    → ((p : BroadcastPipeline D) → W p → P p)
    → P r.0
After-left G W P (p, ok a) i g w = g p i
After-left G W P (p, err e) i g w = w p i

-- What holds before a call of a device and does not read the devices holds after it.
pub call-After :
    {D A : Type 0} (W : BroadcastPipeline D → Type 0) (p : BroadcastPipeline D) (r : D × Result A)
    → W (record p { devices = r.0 })
    → After W W (call p r)
call-After W p (d, ok a) w = w
call-After W p (d, err e) w = w

-- A property of what the ticks leave alone: the ledger and the two flags.
module _ {D F : Type 0} (dv : Devices D F) (Q : ResourceLedger → Bool → Bool → Type 0) where
  abbrev pub Holds : BroadcastPipeline D → Type 0
  Holds p = Q p.resources p.started p.connected

  abbrev Stays : {A : Type 0} → Answered D A → Type 0
  Stays r = After Holds Holds r

  process_all-Stays :
      (gs : List (D → F → D × Result F)) (f : F) (p : BroadcastPipeline D)
      → Holds p
      → Stays (process_all dv gs f p)
  unfolding process_all
  process_all-Stays [] f p i = i
  process_all-Stays (g ∷ gs) f p i =
      bind-After Holds Holds Holds (call p (g p.devices f)) (process_all dv gs)
        (call-After Holds p (g p.devices f) i) (λ h q j. process_all-Stays gs h q j)

  apply_bitrate-Stays :
      (o : Option (Option ℕ)) (p : BroadcastPipeline D) → Holds p → Stays (apply_bitrate dv o p)
  apply_bitrate-Stays none p i = i
  apply_bitrate-Stays (some none) p i = i
  apply_bitrate-Stays (some (some bps)) p i =
      let r = dv.set_bitrate p.devices bps in
      bind-After Holds Holds Holds (call p r) (λ x q. (q, ok (some bps))) (call-After Holds p r i)
        (λ x q j. j)

  poll_bitrate-Stays : (p : BroadcastPipeline D) → Holds p → Stays (poll_bitrate dv p)
  poll_bitrate-Stays p i =
      let r = dv.poll_feedback p.devices in apply_bitrate-Stays r.1 (record p { devices = r.0 }) i

  publish-Stays :
      (f : F) (packet : MediaPacket) (p : BroadcastPipeline D)
      → Holds p
      → Stays (
          call p (dv.publish p.devices packet) >>= λ x q.
          poll_bitrate dv q >>= finish dv (dv.is_audio_frame f) packet)
  publish-Stays f packet p i =
      let r = dv.publish p.devices packet in
      bind-After Holds Holds Holds (call p r)
        (λ x q. poll_bitrate dv q >>= finish dv (dv.is_audio_frame f) packet)
        (call-After Holds p r i)
        (λ x q j.
          bind-After Holds Holds Holds (poll_bitrate dv q) (finish dv (dv.is_audio_frame f) packet)
            (poll_bitrate-Stays q j) (λ b s l. l))

  send_frame-Stays : (f : F) (p : BroadcastPipeline D) → Holds p → Stays (send_frame dv f p)
  send_frame-Stays f p i =
      let r = dv.encode p.devices f p.config.track_id p.config.stream_epoch p.sequence in
      bind-After Holds Holds Holds (call p r)
        (λ packet q. call q (dv.publish q.devices packet) >>= λ x s.
          poll_bitrate dv s >>= finish dv (dv.is_audio_frame f) packet)
        (call-After Holds p r i) (λ packet q j. publish-Stays f packet q j)

  pass_frame-Stays : (o : Option F) (p : BroadcastPipeline D) → Holds p → Stays (pass_frame dv o p)
  pass_frame-Stays none p i = i
  pass_frame-Stays (some f) p i =
      bind-After Holds Holds Holds (process_all dv dv.processors f p) (send_frame dv)
        (process_all-Stays dv.processors f p i) (λ g q j. send_frame-Stays g q j)

  pub tick-Stays : (p : BroadcastPipeline D) → Holds p → Stays (tick dv p)
  unfolding tick
  tick-Stays p i =
      if_elim (λ (r : Answered D (Option BroadcastPacketSummary)). Stays r) (not p.started) (λ e. i)
        (λ e.
          let r = dv.source_poll p.devices in
          bind-After Holds Holds Holds (call p r) (pass_frame dv) (call-After Holds p r i)
            (λ o q j. pass_frame-Stays o q j))
