-- ===== src/Timeline/Gop/Cache.antt =====
-- Feeding a packet keeps a cache what it is.
use cheetah_media_engine.Prelude.{
  ℕ, ◌≡◌, refl, sym, ◌∙◌, subst, arith, Bool, true, false, List, [], ◌∷◌, ◌++◌, Option, none, some,
  ltb, ◌==◌, ==_iff, if◌then◌else◌, Bool-cases, inl, inr,
}
use cheetah_media_engine.Prelude.Int.{ℤ}
use cheetah_media_engine.Types.Packet.{MediaPacket}
use cheetah_media_engine.Timeline.Gop.Counts.{IsCounted, push_packet-IsCounted}
use cheetah_media_engine.Timeline.Gop.{
  Gop, timed, push_packet, GopCache, trim_loop, trim, with_finalized, finalize_current,
  change_config, start_gop, add_to_current, feed_same, feed, timestamp_ms, new_gop,
}
use cheetah_media_engine.Timeline.Gop.Trim.{
  HasKeyframe, IsDecodable, AllDecodable, CurrentDecodable, IsCache, empty_within, trim_loop-within,
  trim_loop-AllDecodable, fine-IsWithin,
}

AllDecodable-append :
    (generation : ℕ) (gs : List Gop) (g : Gop)
    → AllDecodable generation gs
    → IsDecodable generation g
    → AllDecodable generation (gs ++ g ∷ [])
AllDecodable-append generation [] g h k = (k, tt)
AllDecodable-append generation (x ∷ gs) g h k = (h.0, AllDecodable-append generation gs g h.1 k)

with_finalized-AllDecodable :
    (generation : ℕ) (gs : List Gop) (current : Option Gop)
    → AllDecodable generation gs
    → CurrentDecodable generation current
    → AllDecodable generation (with_finalized gs current)
with_finalized-AllDecodable generation gs none h k = h
with_finalized-AllDecodable generation gs (some g) h k = elim (Bool-cases (ltb 0 g.frames)) [
  | inl used ↦ rw used (AllDecodable-append generation gs g h k)
  | inr empty ↦ rw empty h
]

timed_same :
    (g : Gop) (o : Option ℤ)
    → ((timed g o).packets ≡ g.packets) × ((timed g o).config_generation ≡ g.config_generation)
timed_same g none = (refl, refl)
timed_same g (some ms) = (refl, refl)

HasKeyframe-append : (ps qs : List MediaPacket) → HasKeyframe ps → HasKeyframe (ps ++ qs)
HasKeyframe-append [] qs h = absurd h
HasKeyframe-append (p ∷ ps) qs h = h

push_packet-IsDecodable :
    (generation : ℕ) (g : Gop) (p : MediaPacket)
    → g.config_generation ≡ generation
    → HasKeyframe (g.packets ++ p ∷ [])
    → IsCounted g
    → IsDecodable generation (push_packet g p)
unfolding push_packet
push_packet-IsDecodable generation g p h k n =
    let same = timed_same g (timestamp_ms p) in
    (
      same.1 ∙ h,
      subst (λ ps. HasKeyframe (ps ++ p ∷ [])) (sym same.0) k,
      push_packet-IsCounted g p n,
    )

trim-IsCache :
    (c : GopCache)
    → AllDecodable c.current_config_generation c.gops
    → CurrentDecodable c.current_config_generation c.current
    → IsCache (trim c)
unfolding trim
trim-IsCache c h k =
    let (a, b) = trim_loop-AllDecodable c.limits c.current_config_generation c.gops c.current h k in
    let kept = trim_loop c.limits c.gops c.current in
    record {
      within =
          fine-IsWithin c.limits c.current_config_generation kept.0 kept.1 a b
            (trim_loop-within c.limits c.gops c.current);
      finalized = a;
      active = b;
    }

add_to_current-IsCache :
    (c : GopCache) (current : Option Gop) (p : MediaPacket)
    → IsCache c
    → CurrentDecodable c.current_config_generation current
    → IsCache (add_to_current c current p)
unfolding add_to_current
add_to_current-IsCache c none p v h = v
add_to_current-IsCache c (some g) p v h =
    trim-IsCache (record c { current = some (push_packet g p) }) v.finalized
      (push_packet-IsDecodable c.current_config_generation g p h.0
        (HasKeyframe-append g.packets (p ∷ []) h.1) h.2)

start_gop-IsCache :
    (c : GopCache) (p : MediaPacket)
    → p.flags.is_keyframe ≡ true
    → IsCache c
    → let s = start_gop c p c.current_config_generation in IsCache (add_to_current s s.current p)
unfolding add_to_current finalize_current
start_gop-IsCache c p key v =
    let s = start_gop c p c.current_config_generation in
    let g = new_gop p.stream_epoch c.current_config_generation (timestamp_ms p) in
    trim-IsCache (record s { current = some (push_packet g p) })
      (with_finalized-AllDecodable c.current_config_generation c.gops c.current v.finalized
        v.active)
      (push_packet-IsDecodable c.current_config_generation g p refl key
        (omega arith, omega arith, tt))

if-IsCache :
    (t : Bool) (a b : GopCache)
    → (t ≡ true → IsCache a)
    → (t ≡ false → IsCache b)
    → IsCache (if t then a else b)
if-IsCache true a b h k = h refl
if-IsCache false a b h k = k refl

-- A packet that goes to a cache of its own configuration.
feed_same-IsCache :
    (c : GopCache) (p : MediaPacket)
    → IsCache c
    → IsCache (feed_same c p c.current_config_generation)
unfolding feed_same
feed_same-IsCache c p v =
    if-IsCache p.flags.is_keyframe _ _ (λ key. start_gop-IsCache c p key v)
      (λ other. add_to_current-IsCache c c.current p v v.active)

change_config-IsCache :
    (c : GopCache) (generation : ℕ)
    → IsCache c
    → IsCache (change_config c generation)
      × ((change_config c generation).current_config_generation ≡ generation)
change_config-IsCache c generation v =
    elim (Bool-cases (generation == c.current_config_generation)) [
      | inl same ↦ rw same (v, sym ((==_iff generation c.current_config_generation).0 same))
      | inr other ↦ rw other (
        record {
          within = fine-IsWithin c.limits generation [] none tt tt (empty_within c.limits);
          finalized = tt;
          active = tt;
        },
        refl,
      )
    ]

-- Feeding a packet, of any kind and configuration, keeps a cache one. The payloads of all its packets,
-- the number of its packets and the durations of its groups, each added up to at most the greatest u64,
-- are within the limits. Each of its groups, the current one included, is of the configuration in
-- effect, begins with a keyframe, counts the bytes and the number of its packets, and has a duration
-- that reaches from its start to the time of each of its packets.
pub feed-IsCache :
    (c : GopCache) (p : MediaPacket) (generation : ℕ) → IsCache c → IsCache (feed c p generation)
unfolding feed
feed-IsCache c p generation v =
    let d = change_config c generation in
    let (w, same) = change_config-IsCache c generation v in
    subst (λ k. IsCache (feed_same d p k)) same (feed_same-IsCache d p w)
