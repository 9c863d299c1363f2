-- ===== src/Timeline/Gop/Trim.antt =====
-- What a cache is: its packets within its limits, and every group of the current configuration,
-- headed by a keyframe and with the counters of its packets.
use cheetah_media_engine.Prelude.{
  ℕ, ◌≡◌, refl, subst, arith, true, false, List, [], ◌∷◌, Option, none, some, ltb, ◌≤◌, min, length,
  u64_max, ◌||◌, Bool-cases, inl, inr,
}
use cheetah_media_engine.Types.Packet.{MediaPacket}
use cheetah_media_engine.Timeline.Gop.Counts.{
  IsCounted, payload_bytes, plain_sum, AllAgree, total_of_lem,
}
use cheetah_media_engine.Timeline.Gop.{Gop, GopLimits, GopCache, total_of, is_over, trim_loop}

abbrev pub HasKeyframe : List MediaPacket → Type 0
HasKeyframe [] = ⊥
HasKeyframe (p ∷ ps) = p.flags.is_keyframe ≡ true

-- A group that a decoder of the generation can start with, and whose counters are right.
abbrev pub IsDecodable : ℕ → Gop → Type 0
IsDecodable generation g = (g.config_generation ≡ generation) × HasKeyframe g.packets × IsCounted g

abbrev pub AllDecodable : ℕ → List Gop → Type 0
AllDecodable generation [] = Unit {0}
AllDecodable generation (g ∷ gs) = IsDecodable generation g × AllDecodable generation gs

abbrev pub CurrentDecodable : ℕ → Option Gop → Type 0
CurrentDecodable generation none = Unit {0}
CurrentDecodable generation (some g) = IsDecodable generation g

-- The payloads of all packets, their number, and the durations of the groups, each up to the greatest
-- u64, are within the limits.
abbrev pub IsWithin : GopLimits → List Gop → Option Gop → Type 0
IsWithin limits gops current =
    (min (plain_sum (λ g. payload_bytes g.packets) gops current) u64_max ≤ limits.max_bytes)
    × (min (plain_sum (λ g. length g.packets) gops current) u64_max ≤ limits.max_frames)
    × (min (plain_sum (λ g. g.duration_ms) gops current) u64_max ≤ limits.max_duration_ms)

pub record IsCache (c : GopCache) : Type 0 where
  pub within : IsWithin c.limits c.gops c.current
  pub finalized : AllDecodable c.current_config_generation c.gops
  pub active : CurrentDecodable c.current_config_generation c.current

pub empty_within : (limits : GopLimits) → is_over limits [] none ≡ false
unfolding is_over total_of
empty_within limits = ground arith

pub trim_loop-within :
    (limits : GopLimits) (gs : List Gop) (current : Option Gop)
    → let kept = trim_loop limits gs current in is_over limits kept.0 kept.1 ≡ false
unfolding trim_loop
trim_loop-within limits [] current = elim (Bool-cases (is_over limits [] current)) [
  | inl over ↦ rw over (empty_within limits)
  | inr fine ↦ rw fine fine
]
trim_loop-within limits (g ∷ gs) current = elim (Bool-cases (is_over limits (g ∷ gs) current)) [
  | inl over ↦ rw over (trim_loop-within limits gs current)
  | inr fine ↦ rw fine fine
]

pub trim_loop-AllDecodable :
    (limits : GopLimits) (generation : ℕ) (gs : List Gop) (current : Option Gop)
    → AllDecodable generation gs
    → CurrentDecodable generation current
    → let kept = trim_loop limits gs current in
      AllDecodable generation kept.0 × CurrentDecodable generation kept.1
unfolding trim_loop
trim_loop-AllDecodable limits generation [] current h k =
    elim (Bool-cases (is_over limits [] current)) [
      | inl over ↦ rw over (tt, tt)
      | inr fine ↦ rw fine (tt, k)
    ]
trim_loop-AllDecodable limits generation (g ∷ gs) current h k =
    elim (Bool-cases (is_over limits (g ∷ gs) current)) [
      | inl over ↦ rw over (trim_loop-AllDecodable limits generation gs current h.1 k)
      | inr fine ↦ rw fine (h, k)
    ]

-- The counters add up to what the packets do.
AllDecodable-AllAgree :
    (generation : ℕ) (gs : List Gop) (current : Option Gop)
    → AllDecodable generation gs
    → CurrentDecodable generation current
    → AllAgree (λ g. g.bytes) (λ g. payload_bytes g.packets) gs current
      × AllAgree (λ g. g.frames) (λ g. length g.packets) gs current
      × AllAgree (λ g. g.duration_ms) (λ g. g.duration_ms) gs current
AllDecodable-AllAgree generation [] none h k = (tt, tt, tt)
AllDecodable-AllAgree generation [] (some g) h k =
    (omega (arith, k.2.0), omega (arith, k.2.1), refl)
AllDecodable-AllAgree generation (g ∷ gs) current h k =
    let r = AllDecodable-AllAgree generation gs current h.1 k in
    ((omega (arith, h.0.2.0), r.0), (omega (arith, h.0.2.1), r.1), (refl, r.2))

none_over :
    (x y z a b c : ℕ) → (ltb a x || (ltb b y || ltb c z)) ≡ false → (x ≤ a) × (y ≤ b) × (z ≤ c)
none_over x y z a b c e = (ground arith, ground arith, ground arith)

-- A cache that the loop of `trim` leaves alone is within its limits.
pub fine-IsWithin :
    (limits : GopLimits) (generation : ℕ) (gs : List Gop) (current : Option Gop)
    → AllDecodable generation gs
    → CurrentDecodable generation current
    → is_over limits gs current ≡ false
    → IsWithin limits gs current
unfolding is_over
fine-IsWithin limits generation gs current h k fine =
    let r = AllDecodable-AllAgree generation gs current h k in
    let b = total_of_lem (λ g. g.bytes) (λ g. payload_bytes g.packets) gs current r.0 in
    let f = total_of_lem (λ g. g.frames) (λ g. length g.packets) gs current r.1 in
    let d = total_of_lem (λ g. g.duration_ms) (λ g. g.duration_ms) gs current r.2 in
    let p = none_over _ _ _ limits.max_bytes limits.max_frames limits.max_duration_ms fine in
    (
      subst (λ n. n ≤ limits.max_bytes) b p.0,
      subst (λ n. n ≤ limits.max_frames) f p.1,
      subst (λ n. n ≤ limits.max_duration_ms) d p.2,
    )
