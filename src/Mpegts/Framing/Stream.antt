-- ===== src/Mpegts/Framing/Stream.antt =====
-- The buffer as a queue of bytes: a packet is cut from its front and nothing else is lost.
use cheetah_media_engine.Prelude.{
  ℕ, ◌+◌, ◌≤◌, ◌<◌, ◌≡◌, inl, inr, refl, sym, ap, ◌∙◌, List, [], ◌∷◌, ◌++◌, length, take, drop,
  length-drop, drop-drop, drop-append, append-nil, ◌==◌, true, false, Option, none, some, ltb,
  arith, Bool-cases, u64_max, sat_add,
}
use cheetah_media_engine.Mpegts.Error.{TsError, ok}
use cheetah_media_engine.Mpegts.Packet.{TsPacket, payload, parse}
use cheetah_media_engine.Mpegts.Framing.{
  TsDemuxer, has_error, push, parse_packet, parse_loop, shrink, max_buffer, on_parsed,
}

-- The bytes that no packet was cut from yet.
abbrev pub pending : TsDemuxer → List ℕ
pending d = drop d.read_pos d.buffer

shrink-Keeps :
    (d : TsDemuxer)
    → (pending (shrink d) ≡ pending d)
      × ((shrink d).packets_processed ≡ d.packets_processed)
      × ((shrink d).sync_losses ≡ d.sync_losses)
shrink-Keeps d = elim (Bool-cases (ltb 4096 d.read_pos)) [
  | inl e ↦ rw e (refl, refl, refl)
  | inr e ↦ rw e (refl, refl, refl)
]

no_error : (d : TsDemuxer) → d.error ≡ none → has_error d ≡ false
no_error d e = ap (λ (o : Option TsError). elim o [ none ↦ false | some x ↦ true ]) e

-- A push into a demuxer without error adds the bytes at the end, as long as they fit.
pub pending-push :
    (d : TsDemuxer) (bytes : List ℕ)
    → d.error ≡ none
    → d.read_pos ≤ length d.buffer
    → length d.buffer + length bytes ≤ max_buffer
    → pending (push d bytes) ≡ pending d ++ bytes
unfolding push
pending-push d [] e h fit = sym (append-nil (pending d))
pending-push d (b ∷ bytes) e h fit =
    let t1 : (length (b ∷ bytes) == 0) ≡ false = ground arith in
    let t2 : ltb max_buffer (sat_add (length d.buffer) (length (b ∷ bytes))) ≡ false =
      ground arith in
    rw (t1, no_error d e, t2) (drop-append d.read_pos d.buffer (b ∷ bytes) h)

-- Where the pending bytes start with a whole packet that parses, it is returned with its
-- payload and counted, and exactly its 188 bytes are taken.
pub parse_packet-Cuts :
    (d : TsDemuxer) (p : TsPacket)
    → length d.buffer < u64_max
    → 188 ≤ length (pending d)
    → parse (pending d) ≡ ok p
    → (c : TsDemuxer) × (parse_packet d ≡ (c, ok (some (p, payload p (take 188 (pending d))))))
      × (pending c ≡ drop 188 (pending d))
      × (c.packets_processed ≡ sat_add d.packets_processed 1)
      × (c.sync_losses ≡ d.sync_losses)
unfolding parse_packet parse_loop
parse_packet-Cuts d p small h e =
    let whole : ltb (length d.buffer) (sat_add d.read_pos 188) ≡ false =
      ground (arith, length-drop d.read_pos d.buffer) in
    let taken = record d {
      read_pos = d.read_pos + 188;
      packets_processed = sat_add d.packets_processed 1;
    } in
    let kept = shrink-Keeps taken in
    (
      shrink taken,
      rw whole (ap (λ r. on_parsed d r (parse_loop 1)) e),
      kept.0 ∙ drop-drop d.read_pos 188 (d.read_pos + 188) d.buffer refl,
      kept.1,
      kept.2,
    )
