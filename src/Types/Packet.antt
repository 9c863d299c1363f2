-- ===== src/Types/Packet.antt =====
-- crates/cheetah-media-types/src/packet.rs: compressed packets. A payload is its bytes.
use cheetah_media_engine.Prelude.{ℕ, Bool, true, false, List}
use cheetah_media_engine.Types.Time.{MediaTime}
use cheetah_media_engine.Types.Track.{TrackId, StreamEpoch, SequenceNumber}

pub record PacketFlags : Type 0 where
  pub is_keyframe : Bool
  pub is_corrupt : Bool
  pub is_discontinuity : Bool

pub record MediaPacket : Type 0 where
  pub payload : List ℕ
  pub track_id : TrackId
  pub stream_epoch : StreamEpoch
  pub sequence : SequenceNumber
  pub time : MediaTime
  pub flags : PacketFlags

pub new_packet : List ℕ → TrackId → StreamEpoch → SequenceNumber → MediaTime → MediaPacket
new_packet payload track epoch sequence time = record {
  payload = payload;
  track_id = track;
  stream_epoch = epoch;
  sequence = sequence;
  time = time;
  flags = record { is_keyframe = false; is_corrupt = false; is_discontinuity = false };
}

pub with_keyframe : MediaPacket → MediaPacket
with_keyframe p = record p { flags = record p.flags { is_keyframe = true } }
