-- ===== src/Broadcast/Pipeline.antt =====
-- crates/cheetah-media-engine/src/broadcast/pipeline.rs, and the traits of source.rs, processor.rs,
-- encoder.rs and publisher.rs beside it, whose implementations are chosen by the caller.
pub mod Keeps
pub mod Network
use cheetah_media_engine.Prelude.{
  ℕ, ◌+◌, ◌%◌, ◌^◌, String, Bool, true, false, not, List, [], ◌∷◌, length, Option, none, some, ◌==◌,
  if◌then◌else◌,
}
use cheetah_media_engine.Types.Error.{MediaError, invalid_input, Result, ok, err}
use cheetah_media_engine.Types.Format.{CodecId}
use cheetah_media_engine.Types.Time.{MediaTime, has_timestamp}
use cheetah_media_engine.Types.Track.{TrackId, StreamEpoch, SequenceNumber}
use cheetah_media_engine.Types.Packet.{MediaPacket}
use cheetah_media_engine.Engine.Metrics.{Metrics, new_metrics, record_allocation}
use cheetah_media_engine.Engine.Resource.{ResourceLedger, new_ledger, network, acquire, release}
use cheetah_media_engine.Broadcast.Permission.{CaptureSourceKind}

pub record PipelineConfig : Type 0 where
  pub track_id : TrackId
  pub stream_epoch : StreamEpoch
  pub codec : CodecId
  pub width : ℕ
  pub height : ℕ
  pub fps : ℕ

pub record BroadcastPacketSummary : Type 0 where
  pub sequence : ℕ
  pub track_id : TrackId
  pub stream_epoch : StreamEpoch
  pub timestamp : Option MediaTime
  pub is_audio : Bool
  pub is_keyframe : Bool
  pub target_bitrate_bps : Option ℕ

-- The methods of the capture source, the processors, the encoder and the publisher, over the
-- state `D` of all of them and the frames `F` that pass between them.
pub record Devices (D F : Type 0) : Type 0 where
  pub source_start : D → D × Result (Unit {0})
  pub source_stop : D → D × Result (Unit {0})
  pub source_poll : D → D × Result (Option F)
  pub required_permission : D → Option CaptureSourceKind
  pub processors : List (D → F → D × Result F)
  pub is_audio_frame : F → Bool
  pub configure : D → CodecId → ℕ → ℕ → ℕ → D × Result (Unit {0})
  pub encode : D → F → TrackId → StreamEpoch → SequenceNumber → D × Result MediaPacket
  pub request_keyframe : D → D × Result (Unit {0})
  pub set_bitrate : D → ℕ → D × Result (Unit {0})
  pub publisher_connect : D → String → D × Result (Unit {0})
  pub publish : D → MediaPacket → D × Result (Unit {0})
  pub flush : D → D × Result (Unit {0})
  pub poll_feedback : D → D × Option (Option ℕ)
  pub disconnect : D → D

pub record BroadcastPipeline (D : Type 0) : Type 0 where
  pub devices : D
  pub metrics : Metrics
  pub resources : ResourceLedger
  pub config : PipelineConfig
  pub sequence : ℕ
  pub started : Bool
  pub connected : Bool

abbrev pub new_pipeline : {D : Type 0} → D → PipelineConfig → BroadcastPipeline D
new_pipeline d config = record {
  devices = d;
  metrics = new_metrics;
  resources = new_ledger;
  config = config;
  sequence = 0;
  started = false;
  connected = false;
}

-- The pipeline that a step leaves, with its answer.
abbrev pub Answered : Type 0 → Type 0 → Type 0
Answered D A = BroadcastPipeline D × Result A

-- One call of a device; the operator `?` is the error's clause.
infixl 5 ◌>>=◌
abbrev pub ◌>>=◌ :
    {D : Type 0} {A : Type 0} {B : Type 0}
    → Answered D A
    → (A → BroadcastPipeline D → Answered D B)
    → Answered D B
(p, ok a) >>= f = f a p
(p, err e) >>= f = (p, err e)

abbrev pub call : {D : Type 0} {A : Type 0} → BroadcastPipeline D → D × A → BroadcastPipeline D × A
call p r = (record p { devices = r.0 }, r.1)

abbrev pub mark_connected : {D : Type 0} → BroadcastPipeline D → BroadcastPipeline D
mark_connected p =
    if p.connected
    then p
    else record p { resources = acquire p.resources network; connected = true }

module _ {D F : Type 0} (dv : Devices D F) where
  unfoldable pub connect : BroadcastPipeline D → String → Answered D (Unit {0})
  connect p url = call p (dv.publisher_connect p.devices url) >>= λ x p. (mark_connected p, ok tt)

  unfoldable pub start : BroadcastPipeline D → Answered D (Unit {0})
  start p =
      if not p.connected
      then (p, err (invalid_input 7004 (some "pipeline must be connected before start")))
      else (call p (dv.source_start p.devices) >>= λ x p.
          call p (dv.configure p.devices p.config.codec p.config.width p.config.height p.config.fps)
          >>= λ x p. (record p { started = true }, ok tt))

  -- The answers of the devices are not used.
  unfoldable pub stop : BroadcastPipeline D → BroadcastPipeline D
  stop p = record p {
    devices = dv.disconnect (dv.flush (dv.source_stop p.devices).0).0;
    resources = if p.connected then (release p.resources network).0 else p.resources;
    started = false;
    connected = false;
  }

  unfoldable pub process_all : List (D → F → D × Result F) → F → BroadcastPipeline D → Answered D F
  process_all [] f p = (p, ok f)
  process_all (g ∷ gs) f p = call p (g p.devices f) >>= process_all gs

  abbrev pub apply_bitrate : Option (Option ℕ) → BroadcastPipeline D → Answered D (Option ℕ)
  apply_bitrate (some (some bps)) p =
      call p (dv.set_bitrate p.devices bps) >>= λ x p. (p, ok (some bps))
  apply_bitrate (some none) p = (p, ok none)
  apply_bitrate none p = (p, ok none)

  abbrev pub poll_bitrate : BroadcastPipeline D → Answered D (Option ℕ)
  poll_bitrate p = let r = call p (dv.poll_feedback p.devices) in apply_bitrate r.1 r.0

  abbrev pub summary_of :
      BroadcastPipeline D → Bool → MediaPacket → Option ℕ → BroadcastPacketSummary
  summary_of p audio packet bitrate = record {
    sequence = p.sequence;
    track_id = packet.track_id;
    stream_epoch = packet.stream_epoch;
    timestamp = if has_timestamp packet.time then some packet.time else none;
    is_audio = audio;
    is_keyframe = packet.flags.is_keyframe;
    target_bitrate_bps = bitrate;
  }

  abbrev pub finish :
      Bool
      → MediaPacket
      → Option ℕ
      → BroadcastPipeline D
      → Answered D (Option BroadcastPacketSummary)
  finish audio packet bitrate p = (
    record p {
      metrics = record_allocation p.metrics (length packet.payload);
      sequence = (p.sequence + 1) % 2 ^ 64;
    },
    ok (some (summary_of p audio packet bitrate)),
  )

  abbrev pub send_frame : F → BroadcastPipeline D → Answered D (Option BroadcastPacketSummary)
  send_frame f p =
      call p (dv.encode p.devices f p.config.track_id p.config.stream_epoch p.sequence)
      >>= λ packet p. call p (dv.publish p.devices packet) >>= λ x p.
          poll_bitrate p >>= finish (dv.is_audio_frame f) packet

  abbrev pub pass_frame :
      Option F → BroadcastPipeline D → Answered D (Option BroadcastPacketSummary)
  pass_frame none p = (p, ok none)
  pass_frame (some f) p = process_all dv.processors f p >>= send_frame

  unfoldable pub tick : BroadcastPipeline D → Answered D (Option BroadcastPacketSummary)
  unfolding process_all
  tick p =
      if not p.started then (p, ok none) else (call p (dv.source_poll p.devices) >>= pass_frame)
